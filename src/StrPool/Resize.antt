-- ===== src/StrPool/Resize.antt =====
-- `poolHashResize`: a table that is moved to another size is a table of the same strings.
use rpm.Base.{
  ℕ, zero, suc, ◌+◌, ◌≤◌, ◌<◌, ◌≡◌, ◌≢◌, refl, sym, ap, ◌∙◌, Option, none, some, Bool-cases,
  Option-cases, inl, inr, ◌==◌, Bytes, List, arith, if◌then◌else◌,
}
use rpm.StrPool.{
  slot, id2str, probe, rstrhash, set_bucket, place_loop, resize_loop, fill, text_hash, no_buckets,
}
use rpm.StrPool.Probes.{GoesOn, place_loop-some}
use rpm.StrPool.Table.{IsReached, IsTable, slot-lt, probe-same, IsReached-set_bucket}
use rpm.StrPool.Ids.{probe-other, IsReached-filled, IsReached-transport, id2str_valid, distinct_ids}

-- The new table after the first `i` buckets of the old one.
record IsMoved (offs : List Bytes) (size : ℕ) (old : ℕ → ℕ) (i : ℕ) (new : ℕ → ℕ) : Type 0 where
  pub from : (x : ℕ) → new x ≢ 0 → (j : ℕ) × (j < i) × (old j ≡ new x)
  pub once : (x y : ℕ) → new x ≡ new y → new x ≢ 0 → x ≡ y
  pub there :
      (j : ℕ) (s : Bytes)
      → j < i
      → old j ≢ 0
      → id2str offs (old j) ≡ some s
      → IsReached offs size new (old j) s

IsMoved-no_buckets :
    (offs : List Bytes) (size : ℕ) (old : ℕ → ℕ) → IsMoved offs size old 0 no_buckets
IsMoved-no_buckets offs size old = record {
  from = λ x n. absurd (n refl);
  once = λ x y e n. absurd (n refl);
  there = λ j s h. absurd (omega arith);
}

IsMoved-skip :
    (offs : List Bytes) (size : ℕ) (old : ℕ → ℕ) (i : ℕ) (new : ℕ → ℕ)
    → old i ≡ 0
    → IsMoved offs size old i new
    → IsMoved offs size old (i + 1) new
IsMoved-skip offs size old i new z m = record {
  from = λ x n. let (j, a, e) = m.from x n in (j, omega arith, e);
  once = m.once;
  there = λ j s h n t. elim (Bool-cases (j == i)) [
    | inl e ↦ let here : j ≡ i = ground arith in absurd (n (ap old here ∙ z))
    | inr e ↦ m.there j s (ground arith) n t
  ];
}

-- The number `old i` in the first empty bucket of its string.
IsMoved-placed :
    (offs : List Bytes) (c size n : ℕ) (old : ℕ → ℕ) (i k : ℕ) (new : ℕ → ℕ) (s : Bytes)
    → IsTable offs c n old
    → i < n
    → old i ≢ 0
    → id2str offs (old i) ≡ some s
    → ((j : ℕ) → 0 ≤ j → j < k → new (slot size (rstrhash s) j) ≢ 0)
    → new (slot size (rstrhash s) k) ≡ 0
    → IsMoved offs size old i new
    → IsMoved offs size old (i + 1) (set_bucket new (slot size (rstrhash s) k) (old i))
unfolding GoesOn set_bucket
IsMoved-placed offs c size n old i k new s t h z text full free m =
    let at = slot size (rstrhash s) k in
    let apart : (x : ℕ) → new x ≢ 0 → new x ≢ old i = λ x p e.
      let (j, a, o) = m.from x p in
      let back = t.unique j i (omega arith) h (o ∙ e) (ground arith) in omega arith in
    let goes : GoesOn (probe offs size new s (rstrhash s)) 0 k = λ j a b.
      let p = full j a b in
      probe-other offs size new s (rstrhash s) j p (λ e.
        let (j', a', o) = m.from (slot size (rstrhash s) j) p in
        apart (slot size (rstrhash s) j) p (
          distinct_ids offs c n old (new (slot size (rstrhash s) j)) (old i) s t
            (ground (arith, t.valid j' (omega arith))) (t.valid i h) e text)) in
    record {
      from = λ x p. elim (Bool-cases (x == at)) [
        | inl e ↦ (i, omega arith, ground arith)
        | inr e ↦ let (j, a, o) = m.from x (ground arith) in (j, omega arith, ground arith)
      ];
      once = λ x y e p. elim (Bool-cases (x == at)) [
        | inl f ↦ elim (Bool-cases (y == at)) [
          | inl g ↦ ground arith
          | inr g ↦ absurd (apart y (ground arith) (ground arith))
        ]
        | inr f ↦ elim (Bool-cases (y == at)) [
          | inl g ↦ absurd (apart x (ground arith) (ground arith))
          | inr g ↦ m.once x y (ground arith) (ground arith)
        ]
      ];
      there = λ j u a p e. elim (Bool-cases (j == i)) [
        | inl f ↦
            let here : i ≡ j = ground arith in
            let id : old i ≡ old j = ap old here in
            let same_text : u ≡ s = ground (arith, ap (id2str offs) id) in
            IsReached-transport offs size (set_bucket new at (old i)) (old i) (old j) s u id
              (sym same_text) (IsReached-filled offs size new (old i) k s goes free z text)
        | inr f ↦
            IsReached-set_bucket offs size new at (old j) (old i) u free
              (m.there j u (ground arith) p e)
      ];
    }

resize_loop-IsMoved :
    (fuel : ℕ) (offs : List Bytes) (c size n : ℕ) (old : ℕ → ℕ) (left i : ℕ) (o : Option (ℕ → ℕ))
    (new : ℕ → ℕ)
    → IsTable offs c n old
    → i + left ≡ n
    → ((b : ℕ → ℕ) → o ≡ some b → IsMoved offs size old i b)
    → resize_loop fuel offs size old left i o ≡ some new
    → IsMoved offs size old n new
unfolding resize_loop fill text_hash
resize_loop-IsMoved fuel offs c size n old zero i o new t h m e =
    let at_end : i ≡ n = omega arith in rw at_end at (m new e)
resize_loop-IsMoved fuel offs c size n old (suc left) i none new t h m e = absurd (ground arith)
resize_loop-IsMoved fuel offs c size n old (suc left) i (some b) new t h m e =
    resize_loop-IsMoved fuel offs c size n old left (i + 1)
      (if old i == 0
        then some b
        else fill b (old i) (place_loop size b (text_hash (id2str offs (old i))) fuel 0))
      new t (omega arith)
      (λ b' f. elim (Bool-cases (old i == 0)) [
        | inl z ↦
            let g : some b ≡ some b' = rw z at f in
            IsMoved-skip offs size old i b' (ground arith) (m b' (ground arith))
        | inr z ↦
            let (s, text) =
              id2str_valid offs (old i) (ground arith)
                (omega (arith, t.valid i (omega arith), t.counted)) in
            let g : fill b (old i) (place_loop size b (rstrhash s) fuel 0) ≡ some b' =
              rw (z, text) at f in
            elim (Option-cases (place_loop size b (rstrhash s) fuel 0)) [
              | inl w ↦ absurd (ground arith)
              | inr (at, w) ↦
                  let (k, a, full, free, where_at) =
                    place_loop-some size b (rstrhash s) fuel 0 at w in
                  let r : set_bucket b at (old i) ≡ b' = ground arith in
                  let w' : set_bucket b (slot size (rstrhash s) k) (old i) ≡ b' =
                    rw where_at at r in
                  rw w' at (
                    IsMoved-placed offs c size n old i k b s t (omega arith) (ground arith) text
                      full free (m b refl))
            ]
      ])
      e

pub resize_loop-IsTable :
    (fuel : ℕ) (offs : List Bytes) (c size n : ℕ) (old new : ℕ → ℕ)
    → IsTable offs c n old
    → 1 ≤ size
    → resize_loop fuel offs size old n 0 (some no_buckets) ≡ some new
    → IsTable offs c size new
unfolding id2str
resize_loop-IsTable fuel offs c size n old new t h e =
    let m =
      resize_loop-IsMoved fuel offs c size n old n 0 (some no_buckets) new t (omega arith)
        (λ b f. let g : no_buckets ≡ b = ground arith in rw g at (IsMoved-no_buckets offs size old))
        e in
    record {
      sized = h;
      counted = t.counted;
      valid = λ j a. elim (Bool-cases (new j == 0)) [
        | inl z ↦ ground arith
        | inr z ↦ let (i, b, o) = m.from j (ground arith) in ground (arith, t.valid i b)
      ];
      unique = λ i j a b f z. m.once i j f z;
      reached = λ i s a f.
          let r = t.reached i s a f in
          let at = slot n (rstrhash s) r.steps in
          let (o, z, text) = probe-same offs n old s (rstrhash s) r.steps (suc i) r.meets in
          rw o at
            (m.there at s (slot-lt n (rstrhash s) r.steps t.sized) (ground arith) (rw o text));
    }
