-- ===== src/StrPool/Longer.antt =====
-- One more string in the pool, which the table does not have yet.
use rpm.Base.{
  ℕ, zero, suc, ◌≤◌, ◌≡◌, refl, sym, ◌∙◌, Bytes, List, [], ◌∷◌, ◌++◌, length, length-append, arith,
}
use rpm.StrPool.{Pool, slot, id2str, probe, rstrhash}
use rpm.StrPool.Probes.{GoesOn}
use rpm.StrPool.Table.{IsTable, slot-lt, get_elem?-append}
use rpm.StrPool.Adding.{IsPool}

pub id2str-append :
    (offs : List Bytes) (s : Bytes) (id : ℕ)
    → id ≤ length offs
    → id2str (offs ++ s ∷ []) id ≡ id2str offs id
unfolding id2str
id2str-append offs s zero h = refl
id2str-append offs s (suc i) h = get_elem?-append offs s i (omega arith)

probe-append :
    (offs : List Bytes) (n : ℕ) (buckets : ℕ → ℕ) (t s : Bytes) (i : ℕ)
    → buckets (slot n (rstrhash s) i) ≤ length offs
    → probe (offs ++ t ∷ []) n buckets s (rstrhash s) i ≡ probe offs n buckets s (rstrhash s) i
unfolding probe
probe-append offs n buckets t s i h =
    rw (id2str-append offs t (buckets (slot n (rstrhash s) i)) h) refl

pub length_snoc : (offs : List Bytes) (s : Bytes) → length (offs ++ s ∷ []) ≡ suc (length offs)
length_snoc offs s = ground (arith, length-append offs (s ∷ []))

-- A string behind the others leaves the table as it is.
IsTable-append :
    (offs : List Bytes) (c n : ℕ) (buckets : ℕ → ℕ) (t : Bytes)
    → IsTable offs c n buckets
    → IsTable (offs ++ t ∷ []) c n buckets
unfolding GoesOn
IsTable-append offs c n buckets t h =
    let ids : (s : Bytes) (i : ℕ)
        → probe (offs ++ t ∷ []) n buckets s (rstrhash s) i
          ≡ probe offs n buckets s (rstrhash s) i =
      λ s i. probe-append offs n buckets t s i (
        omega
          (arith, h.valid (slot n (rstrhash s) i) (slot-lt n (rstrhash s) i h.sized), h.counted)) in
    record {
      sized = h.sized;
      counted = omega (arith, h.counted, length_snoc offs t);
      valid = h.valid;
      unique = h.unique;
      reached = λ i s l e.
          let r =
            h.reached i s l (sym (get_elem?-append offs t i (omega (arith, h.counted))) ∙ e) in
          record {
            steps = r.steps;
            meets = ids s r.steps ∙ r.meets;
            goes_on = λ j a b. ids s j ∙ r.goes_on j a b;
          };
    }

pub IsPool-append :
    (c : ℕ) (pool : Pool) (t : Bytes)
    → IsPool c pool
    → IsPool c (record pool { offs = pool.offs ++ t ∷ [] })
IsPool-append c pool t h = record {
  table = IsTable-append pool.offs c pool.num_buckets pool.buckets t h.table;
  keys = h.keys;
  wide = h.wide;
  small = h.small;
  load = h.load;
  hashed = h.hashed;
}
