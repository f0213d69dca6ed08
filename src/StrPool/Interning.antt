-- ===== src/StrPool/Interning.antt =====
-- `rpmstrPoolId` and `rpmstrPoolPut`: a string has one number, which names it from then on.
use rpm.Base.{
  ℕ, zero, suc, ◌+◌, ◌%◌, ◌^◌, ◌≤◌, ◌<◌, ◌≡◌, ◌≢◌, refl, sym, ap, ◌∙◌, Bool, false, some,
  Bool-cases, Option-cases, inl, inr, Bytes, [], ◌∷◌, ◌++◌, length, arith, ◌&&◌, not,
}
use rpm.StrPool.{
  Pool, id2str, rstrhash, pool_get, pool_hash_add_h_entry, with_id, rpmstr_pool_put, got, strn2id,
  rpmstr_pool_id, rpmstr_pool_str,
}
use rpm.StrPool.Table.{get_elem?-append, get_elem?_last}
use rpm.StrPool.Ids.{get_elem?-some, id2str-some, distinct_ids}
use rpm.StrPool.Lookup.{IsAbsent, IsAbsent-id, pool_get-some, pool_get_there}
use rpm.StrPool.Adding.{IsPool, pool_hash_add_h_entry-IsAdded}
use rpm.StrPool.Longer.{id2str-append, length_snoc, IsPool-append}

-- What a call that returned `sid` and left the pool `to` has done.
pub record IsInterned (pool : Pool) (s : Bytes) (create : Bool) (sid : ℕ) (to : Pool) : Type 0 where
  pub is_pool : IsPool (length to.offs) to
  pub kept :
      (id : ℕ) (t : Bytes) → rpmstr_pool_str pool id ≡ some t → rpmstr_pool_str to id ≡ some t
  pub names : sid ≢ 0 → rpmstr_pool_str to sid ≡ some s
  pub known : (id : ℕ) → rpmstr_pool_str pool id ≡ some s → (to ≡ pool) × (sid ≡ id)
  pub fails : sid ≡ 0 → (to ≡ pool) × (create && not pool.frozen ≡ false)

put-IsInterned :
    (fuel : ℕ) (pool to : Pool) (s : Bytes) (create : Bool) (sid : ℕ)
    → IsPool (length pool.offs) pool
    → length pool.offs < 2 ^ 28
    → IsAbsent pool.offs (length pool.offs) s
    → rpmstr_pool_put fuel pool s (rstrhash s) ≡ some (to, sid)
    → IsInterned pool s create sid to
unfolding rpmstr_pool_put with_id rpmstr_pool_str IsAbsent id2str
put-IsInterned fuel pool to s create sid h b n e =
    let c = length pool.offs in
    let longer : Pool = record pool { offs = pool.offs ++ s ∷ [] } in
    let id : (c + 1) % 2 ^ 32 ≡ suc c = omega arith in
    let f : with_id (suc c) (pool_hash_add_h_entry fuel longer s (rstrhash s) (suc c))
        ≡ some (to, sid) =
      rw id at e in
    elim (Option-cases (pool_hash_add_h_entry fuel longer s (rstrhash s) (suc c))) [
      | inl z ↦ absurd (ground arith)
      | inr (added, z) ↦
          let r : with_id (suc c) (some added) ≡ some (to, sid) = rw z at f in
          let same_pool : added ≡ to = ground arith in
          let same_id : suc c ≡ sid = ground arith in
          let a =
            pool_hash_add_h_entry-IsAdded fuel c longer added s (IsPool-append c pool s h) b
              (omega (arith, length_snoc pool.offs s)) (get_elem?_last pool.offs s)
              (λ i l w. n i l (sym (get_elem?-append pool.offs s i l) ∙ w)) z in
          let to_offs : to.offs ≡ pool.offs ++ s ∷ [] =
            ap Pool.offs (sym same_pool) ∙ a.same_offs in
          let longer_by : length to.offs ≡ suc c = ap length to_offs ∙ length_snoc pool.offs s in
          let ids : (i : ℕ) → i ≤ c → id2str to.offs i ≡ id2str pool.offs i =
            λ i l. rw to_offs (id2str-append pool.offs s i l) in
          record {
            is_pool = rw longer_by (rw same_pool at a.is_pool);
            kept = λ i t w. let (x, y) = id2str-some pool.offs i t w in ids i y ∙ w;
            names = λ x. rw (sym same_id, to_offs) (get_elem?_last pool.offs s);
            known = λ i w.
                let (x, y) = id2str-some pool.offs i s w in
                absurd (IsAbsent-id pool.offs c s i n x y w);
            fails = λ x. absurd (omega arith);
          }
    ]

IsInterned-transport :
    (pool a b : Pool) (s : Bytes) (create : Bool) (i j : ℕ)
    → a ≡ b
    → i ≡ j
    → IsInterned pool s create i a
    → IsInterned pool s create j b
IsInterned-transport pool a b s create i j e f h = rw e at (rw f at h)

found-IsInterned :
    (pool : Pool) (s : Bytes) (create : Bool) (sid : ℕ)
    → IsPool (length pool.offs) pool
    → sid ≢ 0
    → id2str pool.offs sid ≡ some s
    → IsInterned pool s create sid pool
unfolding rpmstr_pool_str
found-IsInterned pool s create sid h z t = record {
  is_pool = h;
  kept = λ i u w. w;
  names = λ x. t;
  known = λ i w.
      let (x, y) = id2str-some pool.offs i s w in
      let (x', y') = id2str-some pool.offs sid s t in
      (
        refl,
        distinct_ids pool.offs (length pool.offs) pool.num_buckets pool.buckets sid i s h.table y' y
            t w,
      );
  fails = λ x. absurd (z x);
}

absent-IsInterned :
    (pool : Pool) (s : Bytes) (create : Bool)
    → IsPool (length pool.offs) pool
    → create && not pool.frozen ≡ false
    → IsAbsent pool.offs (length pool.offs) s
    → IsInterned pool s create 0 pool
unfolding rpmstr_pool_str
absent-IsInterned pool s create h c n = record {
  is_pool = h;
  kept = λ i u w. w;
  names = λ x. absurd (x refl);
  known = λ i w.
      let (x, y) = id2str-some pool.offs i s w in
      absurd (IsAbsent-id pool.offs (length pool.offs) s i n x y w);
  fails = λ x. (refl, c);
}

-- In a pool of less than 2^28 strings whose table has each of them, `rpmstrPoolId` leaves such a
-- pool with the old numbers. A number it returns names the string, and it is the old one, in an
-- unchanged pool, where the string had one; it returns 0 only where it was not to add or the pool is
-- frozen, and the pool is unchanged then.
pub rpmstr_pool_id-IsInterned :
    (fuel : ℕ) (pool to : Pool) (s : Bytes) (create : Bool) (sid : ℕ)
    → IsPool (length pool.offs) pool
    → length pool.offs < 2 ^ 28
    → rpmstr_pool_id fuel pool s create ≡ some (to, sid)
    → IsInterned pool s create sid to
unfolding rpmstr_pool_id strn2id got rpmstr_pool_str
rpmstr_pool_id-IsInterned fuel pool to s create sid h b e =
    elim (Option-cases (pool_get fuel pool s (rstrhash s))) [
      | inl z ↦ absurd (ground (arith, h.hashed))
      | inr (found, z) ↦ elim (pool_get-some fuel pool (length pool.offs) s found h.table z) [
        | inl (p, t) ↦
            let q : pool ≡ to = ground (arith, h.hashed) in
            let sids : found ≡ sid = ground (arith, h.hashed) in
            IsInterned-transport pool pool to s create found sid q sids
              (found-IsInterned pool s create found h p t)
        | inr (p, n) ↦ elim (Bool-cases (create && not pool.frozen)) [
          | inl c ↦
              let put : rpmstr_pool_put fuel pool s (rstrhash s) ≡ some (to, sid) =
                ground (arith, h.hashed) in
              put-IsInterned fuel pool to s create sid h b n put
          | inr c ↦
              let q : pool ≡ to = ground (arith, h.hashed) in
              let sids : 0 ≡ sid = ground (arith, h.hashed) in
              IsInterned-transport pool pool to s create 0 sid q sids
                (absent-IsInterned pool s create h c n)
        ]
      ]
    ]

-- Of two calls of `rpmstrPoolId` one after the other, in a pool of less than 2^28 strings whose table
-- has each of them, that return numbers other than 0, the numbers are the same exactly if the
-- strings are.
pub rpmstr_pool_id-same_iff :
    (fuel more : ℕ) (pool one two : Pool) (s t : Bytes) (first second : Bool) (a b : ℕ)
    → IsPool (length pool.offs) pool
    → length pool.offs < 2 ^ 28
    → length one.offs < 2 ^ 28
    → rpmstr_pool_id fuel pool s first ≡ some (one, a)
    → rpmstr_pool_id more one t second ≡ some (two, b)
    → a ≢ 0
    → b ≢ 0
    → (a ≡ b → s ≡ t) × (s ≡ t → a ≡ b)
unfolding rpmstr_pool_str
rpmstr_pool_id-same_iff fuel more pool one two s t first second a b h l m e f x y =
    let i = rpmstr_pool_id-IsInterned fuel pool one s first a h l e in
    let j = rpmstr_pool_id-IsInterned more one two t second b i.is_pool m f in
    (
      λ q.
          let named : id2str two.offs b ≡ some s = rw q at (j.kept a s (i.names x)) in
          ground (arith, j.names y),
      λ q. let (u, v) = j.known a (rw q at (i.names x)) in sym v,
    )

-- For a string that a pool has, whose table has each of its strings, there is a number of probes
-- with which `rpmstrPoolId` ends; it returns the string's number and leaves the pool as it is.
pub rpmstr_pool_id-terminates :
    (pool : Pool) (s : Bytes) (create : Bool) (id : ℕ)
    → IsPool (length pool.offs) pool
    → rpmstr_pool_str pool id ≡ some s
    → (least : ℕ) × ((fuel : ℕ)
        → least < fuel
        → rpmstr_pool_id fuel pool s create ≡ some (pool, id))
unfolding rpmstr_pool_id strn2id got rpmstr_pool_str id2str
rpmstr_pool_id-terminates pool s create zero h e = absurd (ground arith)
rpmstr_pool_id-terminates pool s create (suc i) h e =
    let (least, finds) =
      pool_get_there pool (length pool.offs) i s h.table (get_elem?-some pool.offs i s e) e in
    (least, λ fuel l. ground (arith, h.hashed, finds fuel l))
