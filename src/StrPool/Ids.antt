-- ===== src/StrPool/Ids.antt =====
-- The numbers of a table and the strings they stand for.
use rpm.Base.{
  ℕ, zero, suc, ◌≤◌, ◌<◌, ◌≡◌, ◌≢◌, refl, ap, ◌∙◌, some, Bool-cases, inl, inr, Bytes, List, [], ◌∷◌,
  length, get_elem?, arith,
}
use rpm.StrPool.{other, slot, is_text, id2str, probe, rstrhash, set_bucket}
use rpm.StrPool.Probes.{GoesOn, is_text-same}
use rpm.StrPool.Table.{IsReached, IsTable, probe-at, probe-set_bucket, distinct}

pub probe-other :
    (offs : List Bytes) (n : ℕ) (buckets : ℕ → ℕ) (key : Bytes) (hash i : ℕ)
    → buckets (slot n hash i) ≢ 0
    → id2str offs (buckets (slot n hash i)) ≢ some key
    → probe offs n buckets key hash i ≡ other
unfolding probe
probe-other offs n buckets key hash i z t =
    let at = buckets (slot n hash i) in
    elim (Bool-cases (is_text (id2str offs at) key)) [
      | inl e ↦ absurd (t (is_text-same (id2str offs at) key e))
      | inr e ↦ ground (arith, e)
    ]

-- A number in the first empty bucket of its string is met there.
pub IsReached-filled :
    (offs : List Bytes) (n : ℕ) (buckets : ℕ → ℕ) (id k : ℕ) (s : Bytes)
    → GoesOn (probe offs n buckets s (rstrhash s)) 0 k
    → buckets (slot n (rstrhash s) k) ≡ 0
    → id ≢ 0
    → id2str offs id ≡ some s
    → IsReached offs n (set_bucket buckets (slot n (rstrhash s) k) id) id s
unfolding GoesOn set_bucket
IsReached-filled offs n buckets id k s g z i t =
    let at = slot n (rstrhash s) k in
    record {
      steps = k;
      meets = probe-at offs n (set_bucket buckets at id) s (rstrhash s) k id (ground arith) i t;
      goes_on = λ j a b.
          let e = g j a b in
          probe-set_bucket offs n buckets s (rstrhash s) j at id z (λ f. ground arith) ∙ e;
    }

pub IsReached-transport :
    (offs : List Bytes) (n : ℕ) (buckets : ℕ → ℕ) (a b : ℕ) (s t : Bytes)
    → a ≡ b
    → s ≡ t
    → IsReached offs n buckets a s
    → IsReached offs n buckets b t
IsReached-transport offs n buckets a b s t e f r = rw e at (rw f at r)

pub get_elem?-there :
    (xs : List Bytes) (i : ℕ) → i < length xs → (s : Bytes) × (get_elem? xs i ≡ some s)
get_elem?-there [] i h = absurd (omega arith)
get_elem?-there (x ∷ xs) zero h = (x, refl)
get_elem?-there (x ∷ xs) (suc i) h = get_elem?-there xs i (omega arith)

pub get_elem?-some : (xs : List Bytes) (i : ℕ) (s : Bytes) → get_elem? xs i ≡ some s → i < length xs
get_elem?-some [] i s e = absurd (ground arith)
get_elem?-some (x ∷ xs) zero s e = omega arith
get_elem?-some (x ∷ xs) (suc i) s e = omega (arith, get_elem?-some xs i s e)

pub id2str-some :
    (offs : List Bytes) (id : ℕ) (s : Bytes)
    → id2str offs id ≡ some s
    → (id ≢ 0) × (id ≤ length offs)
unfolding id2str
id2str-some offs zero s e = absurd (ground arith)
id2str-some offs (suc i) s e = (omega arith, omega (arith, get_elem?-some offs i s e))

-- A number of the table is the number of a string.
pub id2str_valid :
    (offs : List Bytes) (id : ℕ)
    → id ≢ 0
    → id ≤ length offs
    → (s : Bytes) × (id2str offs id ≡ some s)
unfolding id2str
id2str_valid offs zero z h = absurd (z refl)
id2str_valid offs (suc i) z h = get_elem?-there offs i (omega arith)

pub distinct_ids :
    (offs : List Bytes) (c n : ℕ) (buckets : ℕ → ℕ) (a b : ℕ) (s : Bytes)
    → IsTable offs c n buckets
    → a ≤ c
    → b ≤ c
    → id2str offs a ≡ some s
    → id2str offs b ≡ some s
    → a ≡ b
unfolding id2str
distinct_ids offs c n buckets zero b s t x y e f = absurd (ground arith)
distinct_ids offs c n buckets (suc a) zero s t x y e f = absurd (ground arith)
distinct_ids offs c n buckets (suc a) (suc b) s t x y e f =
    ap suc (distinct offs c n buckets a b s t (omega arith) (omega arith) e f)
