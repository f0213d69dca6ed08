-- ===== src/StrPool/Rehash.antt =====
-- `rpmstrPoolRehash`, `rpmstrPoolCreate`, `rpmstrPoolFreeze`, `rpmstrPoolUnfreeze`: the table that is built from the strings.
use rpm.Base.{
  ◌≢◌, ◌⊎◌, Option-cases, ℕ, zero, suc, ◌+◌, ◌^◌, ◌≤◌, ◌<◌, ◌≡◌, refl, sym, ap, ◌∙◌, Bool, true,
  false, Option, none, some, Bool-cases, Option-cases, inl, inr, Bytes, List, [], length, get_elem?,
  arith, if◌then◌else◌, ◌&&◌,
}
use rpm.StrPool.{
  Pool, id2str, pool_hash_add_entry, add_text, rehash_loop, size_hint, pool_hash_create,
  rpmstr_pool_rehash, fresh, rpmstr_pool_create, rpmstr_pool_freeze, unfrozen, rpmstr_pool_unfreeze,
}
use rpm.StrPool.Table.{distinct}
use rpm.StrPool.Lookup.{IsAbsent}
use rpm.StrPool.Adding.{IsPool, pool_hash_add_h_entry-IsAdded}
use rpm.StrPool.Ids.{get_elem?-there, get_elem?-some}

-- No string stands twice.
unfoldable pub IsDistinct : List Bytes → Type 0
IsDistinct offs =
    (i j : ℕ) (s : Bytes) → get_elem? offs i ≡ some s → get_elem? offs j ≡ some s → i ≡ j

-- `to` has the strings of `pool`, all of them in its table.
pub record IsRehashed (pool to : Pool) : Type 0 where
  pub is_pool : IsPool (length pool.offs) to
  pub same_offs : to.offs ≡ pool.offs
  pub same_frozen : to.frozen ≡ pool.frozen

rehash_loop-none : (fuel left id : ℕ) → rehash_loop fuel left id none ≡ none
unfolding rehash_loop
rehash_loop-none fuel zero id = refl
rehash_loop-none fuel (suc left) id = refl

rehash_loop-IsRehashed :
    (fuel left c : ℕ) (pool mid to : Pool)
    → IsPool c mid
    → mid.offs ≡ pool.offs
    → mid.frozen ≡ pool.frozen
    → IsDistinct pool.offs
    → c + left ≡ length pool.offs
    → length pool.offs < 2 ^ 28
    → rehash_loop fuel left (c + 1) (some mid) ≡ some to
    → IsRehashed pool to
unfolding rehash_loop id2str add_text pool_hash_add_entry IsDistinct IsAbsent
rehash_loop-IsRehashed fuel zero c pool mid to m o fr d h b e =
    let q : mid ≡ to = ground arith in
    let all : c ≡ length pool.offs = omega arith in
    let done : IsRehashed pool mid = record {
      is_pool = rw all at m;
      same_offs = o;
      same_frozen = fr;
    } in
    rw q at done
rehash_loop-IsRehashed fuel (suc left) c pool mid to m o fr d h b e =
    let (s, text) = get_elem?-there pool.offs c (omega arith) in
    let text' : get_elem? mid.offs c ≡ some s = ap (λ x. get_elem? x c) o ∙ text in
    let id : c + 1 ≡ suc c = omega arith in
    let g : rehash_loop fuel left (suc c + 1) (pool_hash_add_entry fuel mid s (suc c)) ≡ some to =
      let e' : rehash_loop fuel left (suc c + 1) (add_text fuel mid (get_elem? mid.offs c) (suc c))
          ≡ some to =
        rw id at e in
      rw text' at e' in
    elim (Option-cases (pool_hash_add_entry fuel mid s (suc c))) [
      | inl z ↦
          let g' : rehash_loop fuel left (suc c + 1) none ≡ some to = rw z at g in
          absurd (ground (arith, rehash_loop-none fuel left (suc c + 1)))
      | inr (next, z) ↦
          let a =
            pool_hash_add_h_entry-IsAdded fuel c mid next s m (omega arith) (rw o (omega arith))
              text' (λ i l f. absurd (omega (arith, d i c s (rw o at f) text))) z in
          rehash_loop-IsRehashed fuel left (suc c) pool next to a.is_pool (a.same_offs ∙ o)
            (a.same_frozen ∙ fr) d (omega arith) b (rw z at g)
    ]

-- An empty table of a size within the bounds.
pool_hash_create-IsPool :
    (pool : Pool) (size : ℕ) → 2 ≤ size → size ≤ 2 ^ 30 → IsPool 0 (pool_hash_create pool size)
unfolding pool_hash_create
pool_hash_create-IsPool pool size a b = record {
  table = record {
    sized = omega arith;
    counted = omega arith;
    valid = λ j h. omega arith;
    unique = λ i j h k e z. absurd (z refl);
    reached = λ i s h e. absurd (omega arith);
  };
  keys = refl;
  wide = a;
  small = b;
  load = omega arith;
  hashed = refl;
}

pub rpmstr_pool_rehash-IsRehashed :
    (fuel : ℕ) (pool to : Pool)
    → IsDistinct pool.offs
    → length pool.offs < 2 ^ 28
    → rpmstr_pool_rehash fuel pool ≡ some to
    → IsRehashed pool to
unfolding rpmstr_pool_rehash pool_hash_create size_hint
rpmstr_pool_rehash-IsRehashed fuel pool to d b e =
    let size = size_hint (length pool.offs) in
    rehash_loop-IsRehashed fuel (length pool.offs) 0 pool (pool_hash_create pool size) to
      (pool_hash_create-IsPool pool size (ground arith) (ground arith)) refl refl d (omega arith) b
      e

IsDistinct-IsPool : (pool : Pool) → IsPool (length pool.offs) pool → IsDistinct pool.offs
unfolding IsDistinct
IsDistinct-IsPool pool h i j s e f =
    distinct pool.offs (length pool.offs) pool.num_buckets pool.buckets i j s h.table
      (get_elem?-some pool.offs i s e) (get_elem?-some pool.offs j s f) e f

-- `to` is `pool` with all its strings in the table and open for more.
pub record IsThawed (pool to : Pool) : Type 0 where
  pub same_offs : to.offs ≡ pool.offs
  pub is_pool : IsPool (length to.offs) to
  pub is_open : to.frozen ≡ false

thawed :
    (pool mid : Pool)
    → mid.offs ≡ pool.offs
    → IsPool (length mid.offs) mid
    → IsThawed pool (record mid { frozen = false })
thawed pool mid o h = record {
  same_offs = o;
  is_pool = record {
    table = h.table;
    keys = h.keys;
    wide = h.wide;
    small = h.small;
    load = h.load;
    hashed = h.hashed;
  };
  is_open = refl;
}

at_pool :
    (pool a b : Pool)
    → a ≡ b
    → (a.offs ≡ pool.offs) × IsPool (length a.offs) a
    → (b.offs ≡ pool.offs) × IsPool (length b.offs) b
at_pool pool a b e h = rw e at h

unfrozen-IsThawed :
    (pool to : Pool) (mid : Option Pool)
    → ((found : Pool)
        → mid ≡ some found
        → (found.offs ≡ pool.offs) × IsPool (length found.offs) found)
    → unfrozen mid ≡ some to
    → IsThawed pool to
unfolding unfrozen
unfrozen-IsThawed pool to none h e = absurd (ground arith)
unfrozen-IsThawed pool to (some mid) h e =
    let (o, m) = h mid refl in
    let q : record mid { frozen = false } ≡ to = ground arith in rw q at (thawed pool mid o m)

unfreeze-freeze-IsThawed :
    (fuel : ℕ) (pool to : Pool) (keephash : Bool)
    → IsPool (length pool.offs) pool
    → length pool.offs < 2 ^ 28
    → rpmstr_pool_unfreeze fuel (rpmstr_pool_freeze pool keephash) ≡ some to
    → IsThawed pool to
unfolding rpmstr_pool_unfreeze rpmstr_pool_freeze unfrozen
unfreeze-freeze-IsThawed fuel pool to keephash h b e =
    let frozen_pool = rpmstr_pool_freeze pool keephash in
    unfrozen-IsThawed pool to
      (if frozen_pool.has_hash then some frozen_pool else rpmstr_pool_rehash fuel frozen_pool)
      (λ found f. elim (Bool-cases pool.frozen) [
        | inl fr ↦
            let q : pool ≡ found = ground (arith, h.hashed) in at_pool pool pool found q (refl, h)
        | inr fr ↦ elim (Bool-cases keephash) [
          | inl k ↦
              let q : record pool { has_hash = pool.has_hash && keephash; frozen = true } ≡ found =
                ground (arith, h.hashed) in
              at_pool pool (record pool { has_hash = pool.has_hash && keephash; frozen = true })
                found q
                (
                  refl,
                  record {
                    table = h.table;
                    keys = h.keys;
                    wide = h.wide;
                    small = h.small;
                    load = h.load;
                    hashed = ground (arith, h.hashed);
                  },
                )
          | inr k ↦
              let empty_table : Pool = record pool {
                has_hash = pool.has_hash && keephash;
                frozen = true;
              } in
              let g : rpmstr_pool_rehash fuel empty_table ≡ some found = ground arith in
              let r =
                rpmstr_pool_rehash-IsRehashed fuel empty_table found (IsDistinct-IsPool pool h) b
                  g in
              (r.same_offs, rw (ap length (sym r.same_offs)) at r.is_pool)
        ]
      ])
      e

freeze-kept :
    (fuel : ℕ) (pool : Pool)
    → pool.has_hash ≡ true
    → rpmstr_pool_unfreeze fuel (rpmstr_pool_freeze pool true) ≢ none
unfolding rpmstr_pool_unfreeze rpmstr_pool_freeze unfrozen
freeze-kept fuel pool h e = ground arith

-- A pool of less than 2^28 strings whose table has each of them, frozen and thawed again: either it
-- has the same strings under the same numbers, all of them in its table, and is open for more; or
-- the table was thrown away and the rebuild does not end within the fuel, which a table that was
-- kept excludes.
pub rpmstr_pool_unfreeze-freeze :
    (fuel : ℕ) (pool : Pool) (keephash : Bool)
    → IsPool (length pool.offs) pool
    → length pool.offs < 2 ^ 28
    → ((to : Pool) × (rpmstr_pool_unfreeze fuel (rpmstr_pool_freeze pool keephash) ≡ some to)
        × IsThawed pool to)
      ⊎ ((rpmstr_pool_unfreeze fuel (rpmstr_pool_freeze pool keephash) ≡ none) × (keephash ≡ false))
rpmstr_pool_unfreeze-freeze fuel pool keephash h b =
    elim (Option-cases (rpmstr_pool_unfreeze fuel (rpmstr_pool_freeze pool keephash))) [
      | inl e ↦ elim (Bool-cases keephash) [
        | inl k ↦ absurd (freeze-kept fuel pool h.hashed (rw k at e))
        | inr k ↦ inr (e, k)
      ]
      | inr (to, e) ↦ inl (to, e, unfreeze-freeze-IsThawed fuel pool to keephash h b e)
    ]

-- A new pool has no strings and is open.
pub rpmstr_pool_create-IsPool :
    (fuel : ℕ) (to : Pool)
    → rpmstr_pool_create fuel ≡ some to
    → IsPool 0 to × (to.offs ≡ []) × (to.frozen ≡ false)
unfolding rpmstr_pool_create IsDistinct
rpmstr_pool_create-IsPool fuel to e =
    let r =
      rpmstr_pool_rehash-IsRehashed fuel fresh to (λ i j s f g. absurd (ground arith)) (omega arith)
        e in
    (r.is_pool, r.same_offs, r.same_frozen)
