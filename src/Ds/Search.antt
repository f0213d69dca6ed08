-- ===== src/Ds/Search.antt =====
-- The binary search of `doFind`, for any comparison that the order of the entries agrees with.
use rpm.Base.{
  ℕ, zero, suc, ◌+◌, ◌-◌, ◌/◌, ◌≤◌, ◌<◌, ◌≡◌, refl, ◌∙◌, true, false, Option, none, some, ltb,
  Ordering, Bool-cases, inl, inr, ◌⊎◌, arith,
}
use rpm.Ds.{find_loop}

Ordering-cases : (o : Ordering) → (o ≡ Ordering.lt) ⊎ (o ≡ Ordering.eq) ⊎ (o ≡ Ordering.gt)
Ordering-cases Ordering.lt = inl refl
Ordering-cases Ordering.eq = inr (inl refl)
Ordering-cases Ordering.gt = inr (inr refl)

-- Before an entry that is smaller all are, and after one that is greater.
pub record IsMonotone (cmp : ℕ → Ordering) (n : ℕ) : Type 0 where
  pub before : (i j : ℕ) → i < j → j < n → cmp j ≡ Ordering.gt → cmp i ≡ Ordering.gt
  pub after : (i j : ℕ) → i < j → j < n → cmp i ≡ Ordering.lt → cmp j ≡ Ordering.lt

-- All entries from `l` on and before `u` are still to be looked at.
pub record IsWithin (cmp : ℕ → Ordering) (n l u : ℕ) : Type 0 where
  pub ends : u ≤ n
  pub smaller : (i : ℕ) → i < l → cmp i ≡ Ordering.gt
  pub greater : (i : ℕ) → u ≤ i → i < n → cmp i ≡ Ordering.lt

-- An entry that compares as equal, or the place between the smaller and the greater ones.
unfoldable pub IsResult : (ℕ → Ordering) → ℕ → Option ℕ × ℕ → Type 0
IsResult cmp n (some i, u) = (i < n) × (cmp i ≡ Ordering.eq)
IsResult cmp n (none, u) = IsWithin cmp n u u

smaller_to :
    (cmp : ℕ → Ordering) (n i j : ℕ)
    → IsMonotone cmp n
    → i < n
    → cmp i ≡ Ordering.gt
    → j < i + 1
    → cmp j ≡ Ordering.gt
smaller_to cmp n i j m h e k = elim (Bool-cases (ltb j i)) [
  | inl b ↦ m.before j i (ground arith) h e
  | inr b ↦ let same : j ≡ i = ground arith in rw same e
]

greater_from :
    (cmp : ℕ → Ordering) (n i j : ℕ)
    → IsMonotone cmp n
    → j < n
    → cmp i ≡ Ordering.lt
    → i ≤ j
    → cmp j ≡ Ordering.lt
greater_from cmp n i j m h e k = elim (Bool-cases (ltb i j)) [
  | inl b ↦ m.after i j (ground arith) h e
  | inr b ↦ let same : j ≡ i = ground arith in rw same e
]

find_loop_ended :
    (cmp : ℕ → Ordering) (n l u : ℕ) → ltb l u ≡ false → find_loop cmp (suc n) l u ≡ some (none, u)
unfolding find_loop
find_loop_ended cmp n l u e = rw (find_loop, e)

find_loop_less :
    (cmp : ℕ → Ordering) (n l u : ℕ)
    → ltb l u ≡ true
    → cmp ((l + u) / 2) ≡ Ordering.lt
    → find_loop cmp (suc n) l u ≡ find_loop cmp n l ((l + u) / 2)
unfolding find_loop
find_loop_less cmp n l u e c = rw (find_loop, e, c)

find_loop_greater :
    (cmp : ℕ → Ordering) (n l u : ℕ)
    → ltb l u ≡ true
    → cmp ((l + u) / 2) ≡ Ordering.gt
    → find_loop cmp (suc n) l u ≡ find_loop cmp n ((l + u) / 2 + 1) u
unfolding find_loop
find_loop_greater cmp n l u e c = rw (find_loop, e, c)

find_loop_equal :
    (cmp : ℕ → Ordering) (n l u : ℕ)
    → ltb l u ≡ true
    → cmp ((l + u) / 2) ≡ Ordering.eq
    → find_loop cmp (suc n) l u ≡ some (some ((l + u) / 2), u)
unfolding find_loop
find_loop_equal cmp n l u e c = rw (find_loop, e, c)

pub find_loop-IsResult :
    (cmp : ℕ → Ordering) (n fuel l u : ℕ)
    → IsMonotone cmp n
    → IsWithin cmp n l u
    → l ≤ u
    → u - l < fuel
    → (r : Option ℕ × ℕ) × (find_loop cmp fuel l u ≡ some r) × IsResult cmp n r
unfolding IsResult
find_loop-IsResult cmp n zero l u m w h k = absurd (omega arith)
find_loop-IsResult cmp n (suc fuel) l u m w h k = elim (Bool-cases (ltb l u)) [
  | inr e ↦
      let same : l ≡ u = ground arith in
      (
        (none, u),
        find_loop_ended cmp fuel l u e,
        record { ends = w.ends; smaller = λ i b. w.smaller i (omega arith); greater = w.greater },
      )
  | inl e ↦
      let i = (l + u) / 2 in
      let below : l ≤ i = ground arith in
      let above : i < u = ground arith in
      elim (Ordering-cases (cmp i)) [
        | inl c ↦
            let w' : IsWithin cmp n l i = record {
              ends = omega (arith, w.ends);
              smaller = w.smaller;
              greater = λ j a b. greater_from cmp n i j m b c a;
            } in
            let (r, found, good) = find_loop-IsResult cmp n fuel l i m w' below (omega arith) in
            (r, find_loop_less cmp fuel l u e c ∙ found, good)
        | inr (inl c) ↦ ((some i, u), find_loop_equal cmp fuel l u e c, (omega (arith, w.ends), c))
        | inr (inr c) ↦
            let w' : IsWithin cmp n (i + 1) u = record {
              ends = w.ends;
              smaller = λ j a. smaller_to cmp n i j m (omega (arith, w.ends)) c a;
              greater = w.greater;
            } in
            let (r, found, good) =
              find_loop-IsResult cmp n fuel (i + 1) u m w' (omega arith) (omega arith) in
            (r, find_loop_greater cmp fuel l u e c ∙ found, good)
      ]
]
