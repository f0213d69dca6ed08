-- ===== src/StrPool/Probes.antt =====
-- The loops over the probes of a hash end at the first probe that does not go on.
use rpm.Base.{
  ℕ, zero, suc, ◌+◌, ◌≤◌, ◌<◌, ◌≡◌, ◌≢◌, refl, ap, ◌∙◌, true, Option, none, some, Bool-cases, inl,
  inr, ◌⊎◌, ◌==◌, Bytes, eq_of_strcmp, strcmp_self, arith,
}
use rpm.StrPool.{Probe, empty, same, other, get_loop, add_loop, place_loop, slot, is_text}

pub Probe-cases : (p : Probe) → (p ≡ empty) ⊎ ((id : ℕ) × (p ≡ same id)) ⊎ (p ≡ other)
Probe-cases empty = inl refl
Probe-cases (same id) = inr (inl (id, refl))
Probe-cases other = inr (inr refl)

-- The probes from `i` on and before `k` go on.
unfoldable pub GoesOn : (ℕ → Probe) → ℕ → ℕ → Type 0
GoesOn p i k = (j : ℕ) → i ≤ j → j < k → p j ≡ other

GoesOn-first : (p : ℕ → Probe) (i k : ℕ) → p i ≡ other → GoesOn p (i + 1) k → GoesOn p i k
unfolding GoesOn
GoesOn-first p i k e g j a b = elim (Bool-cases (i == j)) [
  | inl s ↦ let same_index : j ≡ i = ground arith in rw same_index e
  | inr s ↦ g j (ground arith) b
]

-- What `rpmstrPoolGet` returns at a probe.
unfoldable pub answer : Probe → Option ℕ
answer empty = some 0
answer (same id) = some id
answer other = none

pub get_loop-answer :
    (p : ℕ → Probe) (fuel i k : ℕ)
    → GoesOn p i k
    → p k ≢ other
    → i ≤ k
    → k < i + fuel
    → get_loop p fuel i ≡ answer (p k)
unfolding get_loop GoesOn answer
get_loop-answer p zero i k g n a b = absurd (omega arith)
get_loop-answer p (suc fuel) i k g n a b = elim (Bool-cases (i == k)) [
  | inl s ↦
      let at : i ≡ k = ground arith in
      elim (Probe-cases (p k)) [
        | inl e ↦ rw (get_loop, at, e)
        | inr (inl (id, e)) ↦ rw (get_loop, at, e)
        | inr (inr e) ↦ absurd (n e)
      ]
  | inr s ↦
      let first : p i ≡ other = g i (omega arith) (ground arith) in
      rw (get_loop, first)
        (get_loop-answer p fuel (i + 1) k (λ j c d. g j (omega arith) d) n (ground arith)
          (omega arith))
]

-- Where a lookup ends.
pub get_loop-some :
    (p : ℕ → Probe) (fuel i r : ℕ)
    → get_loop p fuel i ≡ some r
    → (k : ℕ) × (i ≤ k) × GoesOn p i k × ((p k ≡ same r) ⊎ ((p k ≡ empty) × (r ≡ 0)))
unfolding get_loop GoesOn
get_loop-some p zero i r e = absurd (ground arith)
get_loop-some p (suc fuel) i r e = elim (Probe-cases (p i)) [
  | inl h ↦
      let f : some 0 ≡ some r = rw (get_loop, h) at e in
      (i, omega arith, λ j a b. absurd (omega arith), inr (h, ground arith))
  | inr (inl (id, h)) ↦
      let f : some id ≡ some r = rw (get_loop, h) at e in
      let s : id ≡ r = ground arith in
      (i, omega arith, λ j a b. absurd (omega arith), inl (rw s at h))
  | inr (inr h) ↦
      let (k, a, g, end) = get_loop-some p fuel (i + 1) r (rw (get_loop, h) at e) in
      (k, omega arith, GoesOn-first p i k h g, end)
]

pub add_loop-some :
    (p : ℕ → Probe) (at : ℕ → ℕ) (fuel i : ℕ) (o : Option ℕ)
    → add_loop p at fuel i ≡ some o
    → (k : ℕ) × (i ≤ k)
      × GoesOn p i k
      × (((p k ≡ empty) × (o ≡ some (at k))) ⊎ ((id : ℕ) × (p k ≡ same id) × (o ≡ none)))
unfolding add_loop GoesOn
add_loop-some p at zero i o e = absurd (ground arith)
add_loop-some p at (suc fuel) i o e = elim (Probe-cases (p i)) [
  | inl h ↦
      let f : some (some (at i)) ≡ some o = rw (add_loop, h) at e in
      (i, omega arith, λ j a b. absurd (omega arith), inl (h, ground arith))
  | inr (inl (id, h)) ↦
      let f : some none ≡ some o = rw (add_loop, h) at e in
      (i, omega arith, λ j a b. absurd (omega arith), inr (id, h, ground arith))
  | inr (inr h) ↦
      let (k, a, g, end) = add_loop-some p at fuel (i + 1) o (rw (add_loop, h) at e) in
      (k, omega arith, GoesOn-first p i k h g, end)
]

pub add_loop-empty :
    (p : ℕ → Probe) (at : ℕ → ℕ) (fuel i k : ℕ)
    → GoesOn p i k
    → p k ≡ empty
    → i ≤ k
    → k < i + fuel
    → add_loop p at fuel i ≡ some (some (at k))
unfolding add_loop GoesOn
add_loop-empty p at zero i k g n a b = absurd (omega arith)
add_loop-empty p at (suc fuel) i k g n a b = elim (Bool-cases (i == k)) [
  | inl s ↦
      let here : i ≡ k = ground arith in
      rw (add_loop, ap p here ∙ n) (ap (λ x. some (some (at x))) here)
  | inr s ↦
      let first : p i ≡ other = g i (omega arith) (ground arith) in
      rw (add_loop, first)
        (add_loop-empty p at fuel (i + 1) k (λ j c d. g j (omega arith) d) n (ground arith)
          (omega arith))
]

pub place_loop-some :
    (n : ℕ) (buckets : ℕ → ℕ) (hash fuel i at : ℕ)
    → place_loop n buckets hash fuel i ≡ some at
    → (k : ℕ) × (i ≤ k)
      × ((j : ℕ) → i ≤ j → j < k → buckets (slot n hash j) ≢ 0)
      × (buckets (slot n hash k) ≡ 0)
      × (at ≡ slot n hash k)
unfolding place_loop
place_loop-some n buckets hash zero i at e = absurd (ground arith)
place_loop-some n buckets hash (suc fuel) i at e =
    elim (Bool-cases (buckets (slot n hash i) == 0)) [
      | inl h ↦
          let f : some (slot n hash i) ≡ some at = rw (place_loop, h) at e in
          (i, omega arith, λ j a b. absurd (omega arith), ground arith, ground arith)
      | inr h ↦
          let (k, a, g, end, where_at) =
            place_loop-some n buckets hash fuel (i + 1) at (rw (place_loop, h) at e) in
          (
            k,
            omega arith,
            λ j c d. elim (Bool-cases (i == j)) [
              | inl s ↦
                  let here : i ≡ j = ground arith in
                  λ z. ground (arith, ap (λ x. buckets (slot n hash x)) here)
              | inr s ↦ g j (ground arith) d
            ],
            end,
            where_at,
          )
    ]

-- The probe that meets a string that is the key.
pub is_text-same : (o : Option Bytes) (key : Bytes) → is_text o key ≡ true → o ≡ some key
unfolding is_text
is_text-same none key e = absurd (ground arith)
is_text-same (some s) key e = ap some (eq_of_strcmp s key (ground arith))

pub is_text_self : (s : Bytes) → is_text (some s) s ≡ true
unfolding is_text
is_text_self s = rw (is_text, strcmp_self s)
