-- ===== src/StrPool/Adding.antt =====
-- `poolHashAddHEntry`: what an addition does to the table.
use rpm.Base.{
  ℕ, suc, ◌+◌, ◌*◌, ◌%◌, ◌^◌, ◌≤◌, ◌<◌, ◌≡◌, refl, sym, ap, ◌∙◌, true, some, Bool-cases,
  Option-cases, inl, inr, ◌==◌, ltb, Bytes, List, length, get_elem?, arith,
}
use rpm.StrPool.{
  Pool, slot, id2str, probe, rstrhash, set_bucket, add_loop, add_found, add_sized,
  pool_hash_add_h_entry, pool_hash_resize, with_buckets, resize_loop, no_buckets,
}
use rpm.StrPool.Probes.{GoesOn, add_loop-some}
use rpm.StrPool.Table.{IsTable, slot-lt, probe-same, probe-empty, IsReached-set_bucket}
use rpm.StrPool.Resize.{resize_loop-IsTable}
use rpm.StrPool.Ids.{IsReached-filled, IsReached-transport}
use rpm.StrPool.Lookup.{IsAbsent, IsAbsent-id}

-- The table with one more number.
IsTable-filled :
    (offs : List Bytes) (c n : ℕ) (buckets : ℕ → ℕ) (s : Bytes) (k : ℕ)
    → IsTable offs c n buckets
    → get_elem? offs c ≡ some s
    → c < length offs
    → GoesOn (probe offs n buckets s (rstrhash s)) 0 k
    → buckets (slot n (rstrhash s) k) ≡ 0
    → IsTable offs (suc c) n (set_bucket buckets (slot n (rstrhash s) k) (suc c))
unfolding id2str set_bucket
IsTable-filled offs c n buckets s k t e h g z =
    let at = slot n (rstrhash s) k in
    record {
      sized = t.sized;
      counted = omega arith;
      valid = λ j a. ground (arith, t.valid j a);
      unique = λ i j a b f y. ground (arith, t.unique i j a b, t.valid i a, t.valid j b);
      reached = λ i u a f. elim (Bool-cases (i == c)) [
        | inl w ↦
            let here : c ≡ i = ground arith in
            let same_text : s ≡ u = ground (arith, ap (get_elem? offs) here) in
            IsReached-transport offs n (set_bucket buckets at (suc c)) (suc c) (suc i) s u
              (ap suc here) same_text
              (IsReached-filled offs n buckets (suc c) k s g z (omega arith) e)
        | inr w ↦
            IsReached-set_bucket offs n buckets at (suc i) (suc c) u z
              (t.reached i u (ground arith) f)
      ];
    }

-- A pool whose table has the first `c` strings. The table is at most twice over its intended load.
pub record IsPool (c : ℕ) (pool : Pool) : Type 0 where
  pub table : IsTable pool.offs c pool.num_buckets pool.buckets
  pub keys : pool.key_count ≡ c
  pub wide : 2 ≤ pool.num_buckets
  pub small : pool.num_buckets ≤ 2 ^ 30
  pub load : 2 * c ≤ pool.num_buckets + 2
  pub hashed : pool.has_hash ≡ true

-- `to` is `pool` with one more number in its table.
pub record IsAdded (c : ℕ) (pool to : Pool) : Type 0 where
  pub is_pool : IsPool (suc c) to
  pub same_offs : to.offs ≡ pool.offs
  pub same_frozen : to.frozen ≡ pool.frozen

add_sized-IsAdded :
    (fuel c : ℕ) (pool to : Pool) (s : Bytes)
    → IsPool c pool
    → 2 * c ≤ pool.num_buckets
    → c < 2 ^ 28
    → c < length pool.offs
    → get_elem? pool.offs c ≡ some s
    → IsAbsent pool.offs c s
    → add_sized fuel (some pool) s (rstrhash s) (suc c) ≡ some to
    → IsAdded c pool to
unfolding add_sized add_found
add_sized-IsAdded fuel c pool to s t room b h e n f =
    let p = probe pool.offs pool.num_buckets pool.buckets s (rstrhash s) in
    let at = slot pool.num_buckets (rstrhash s) in
    elim (Option-cases (add_loop p at fuel 0)) [
      | inl z ↦ absurd (ground arith)
      | inr (o, z) ↦
          let (k, a, g, end) = add_loop-some p at fuel 0 o z in
          elim end [
            | inl (m, w) ↦
                let r : some (record pool {
                  buckets = set_bucket pool.buckets (at k) (suc c);
                  key_count = (pool.key_count + 1) % 2 ^ 32;
                })
                    ≡ some to =
                  rw (z, w) at f in
                let filled : Pool = record pool {
                  buckets = set_bucket pool.buckets (at k) (suc c);
                  key_count = (pool.key_count + 1) % 2 ^ 32;
                } in
                let q : filled ≡ to = ground arith in
                let added : IsAdded c pool filled = record {
                  is_pool = record {
                    table =
                        IsTable-filled pool.offs c pool.num_buckets pool.buckets s k t.table e h g
                          (probe-empty pool.offs pool.num_buckets pool.buckets s (rstrhash s) k m);
                    keys = omega (arith, t.keys);
                    wide = t.wide;
                    small = t.small;
                    load = omega arith;
                    hashed = t.hashed;
                  };
                  same_offs = refl;
                  same_frozen = refl;
                } in
                rw q at added
            | inr (id, m, w) ↦
                let (o', z', text) =
                  probe-same pool.offs pool.num_buckets pool.buckets s (rstrhash s) k id m in
                let v =
                  t.table.valid (at k) (slot-lt pool.num_buckets (rstrhash s) k t.table.sized) in
                absurd (IsAbsent-id pool.offs c s id n z' (ground arith) text)
          ]
    ]

-- `to` is `pool` with a table that is wide enough for one more.
record IsRoomy (c : ℕ) (pool to : Pool) : Type 0 where
  pub is_pool : IsPool c to
  pub room : 2 * c ≤ to.num_buckets
  pub same_offs : to.offs ≡ pool.offs
  pub same_frozen : to.frozen ≡ pool.frozen

resized-IsRoomy :
    (fuel c : ℕ) (pool to : Pool)
    → IsPool c pool
    → c < 2 ^ 28
    → pool.num_buckets < 2 * c
    → pool_hash_resize fuel pool (pool.num_buckets * 2) ≡ some to
    → IsRoomy c pool to
unfolding pool_hash_resize with_buckets
resized-IsRoomy fuel c pool to t b l e =
    let size = pool.num_buckets * 2 in
    elim (Option-cases
      (resize_loop fuel pool.offs size pool.buckets pool.num_buckets 0 (some no_buckets))) [
        | inl z ↦ absurd (ground arith)
        | inr (new, z) ↦
            let moved : Pool = record pool { num_buckets = size; buckets = new } in
            let r : some moved ≡ some to = rw z at e in
            let q : moved ≡ to = ground arith in
            let done : IsRoomy c pool moved = record {
              is_pool = record {
                table =
                    resize_loop-IsTable fuel pool.offs c size pool.num_buckets pool.buckets new
                      t.table (omega (arith, t.wide)) z;
                keys = t.keys;
                wide = omega (arith, t.wide);
                small = omega arith;
                load = omega (arith, t.load);
                hashed = t.hashed;
              };
              room = omega (arith, t.load, t.wide);
              same_offs = refl;
              same_frozen = refl;
            } in
            rw q at done
      ]

pub pool_hash_add_h_entry-IsAdded :
    (fuel c : ℕ) (pool to : Pool) (s : Bytes)
    → IsPool c pool
    → c < 2 ^ 28
    → c < length pool.offs
    → get_elem? pool.offs c ≡ some s
    → IsAbsent pool.offs c s
    → pool_hash_add_h_entry fuel pool s (rstrhash s) (suc c) ≡ some to
    → IsAdded c pool to
unfolding pool_hash_add_h_entry add_sized
pool_hash_add_h_entry-IsAdded fuel c pool to s t b h e n f =
    elim (Bool-cases (ltb pool.num_buckets (2 * pool.key_count % 2 ^ 32))) [
      | inl l ↦
          let size : pool.num_buckets * 2 % 2 ^ 32 ≡ pool.num_buckets * 2 =
            omega (arith, t.small) in
          let g : add_sized fuel (pool_hash_resize fuel pool (pool.num_buckets * 2)) s (rstrhash s)
                (suc c)
              ≡ some to =
            rw (l, size) at f in
          elim (Option-cases (pool_hash_resize fuel pool (pool.num_buckets * 2))) [
            | inl z ↦ absurd (ground arith)
            | inr (mid, z) ↦
                let over : pool.num_buckets < 2 * c = ground (arith, t.keys) in
                let r = resized-IsRoomy fuel c pool mid t b over z in
                let o = r.same_offs in
                let g' : add_sized fuel (some mid) s (rstrhash s) (suc c) ≡ some to = rw z at g in
                let a =
                  add_sized-IsAdded fuel c mid to s r.is_pool r.room b (rw (sym o) at h)
                    (rw (sym o) at e) (rw (sym o) at n) g' in
                record {
                  is_pool = a.is_pool;
                  same_offs = a.same_offs ∙ o;
                  same_frozen = a.same_frozen ∙ r.same_frozen;
                }
          ]
      | inr l ↦
          let g : add_sized fuel (some pool) s (rstrhash s) (suc c) ≡ some to = rw l at f in
          add_sized-IsAdded fuel c pool to s t (ground (arith, t.keys)) b h e n g
    ]
