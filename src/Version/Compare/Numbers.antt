-- ===== src/Version/Compare/Numbers.antt =====
-- Numeric segments of any length compare as the numbers that they write.
use native.Mathlib.Nat.{pow-suc, pow-le-pow_right}
use rpm.Base.{
  ℕ, suc, ◌+◌, ◌-◌, ◌*◌, ◌^◌, ◌≤◌, ◌<◌, ◌≡◌, ◌⊎◌, inl, inr, refl, ap, ◌∙◌, true, false, some, [],
  ◌∷◌, compare, Bytes, length, take_while, drop_while, is_digit, strcmp, and_then_eq, arith,
  Bool-cases, All, ◌==◌,
}
use rpm.Version.Compare.{is_wanted, strip_zeros, compare_digits, rpmvercmp}
use rpm.Version.Compare.Tokens.{number, compare_tokens, compare_lists}
use rpm.Version.Compare.Refines.{tokens_nil, tokens, tokens_lem, next_token, rpmvercmp-tokens}

abbrev pub AllDigits : Bytes → Type 0
AllDigits = All (λ c. is_digit c ≡ true)

-- The number that a row of digits writes.
unfoldable pub value : Bytes → ℕ
value [] = 0
value (c ∷ s) = (c - b'0') * 10 ^ length s + value s

digit_bounds : (c : ℕ) → is_digit c ≡ true → (b'0' ≤ c) × (c ≤ b'9')
unfolding is_digit
digit_bounds c h = ground arith

-- The leading digit decides.
place_lt : (a b p v w : ℕ) → a < b → v < p → a * p + v < b * p + w
place_lt a b p v w h k = grind arith

pub value-lt : (s : Bytes) → AllDigits s → value s < 10 ^ length s
unfolding value
value-lt [] h = omega arith
value-lt (c ∷ s) (d, h) =
    let p = 10 ^ length s in
    let lead =
      place_lt (c - b'0') 10 p (value s) 0 (ground (arith, digit_bounds c d)) (value-lt s h) in
    rw (pow-suc 10 (length s)) (omega (arith, lead))

value-strip_zeros : (s : Bytes) → value (strip_zeros s) ≡ value s
unfolding value strip_zeros
value-strip_zeros [] = refl
value-strip_zeros (c ∷ s) = elim (Bool-cases (c == b'0')) [
  | inl z ↦ rw z (value-strip_zeros s ∙ ground arith)
  | inr z ↦ rw z
]

strip_zeros-AllDigits : (s : Bytes) → AllDigits s → AllDigits (strip_zeros s)
unfolding strip_zeros
strip_zeros-AllDigits [] h = tt
strip_zeros-AllDigits (c ∷ s) h = elim (Bool-cases (c == b'0')) [
  | inl z ↦ rw z (strip_zeros-AllDigits s h.1)
  | inr z ↦ rw z h
]

lead_ge : (a n v : ℕ) → 0 < a → 10 ^ (suc n - 1) ≤ a * 10 ^ n + v
lead_ge a n v h = let e : suc n - 1 ≡ n = omega arith in rw e (grind arith)

-- The value lies between powers of ten, as the first digit is not a zero.
strip_zeros-ge :
    (s : Bytes)
    → AllDigits s
    → (strip_zeros s ≡ []) ⊎ (10 ^ (length (strip_zeros s) - 1) ≤ value (strip_zeros s))
unfolding strip_zeros value
strip_zeros-ge [] h = inl refl
strip_zeros-ge (c ∷ s) (d, h) = elim (Bool-cases (c == b'0')) [
  | inl z ↦ rw z (strip_zeros-ge s h)
  | inr z ↦ rw z (inr (lead_ge (c - b'0') (length s) (value s) (ground (arith, digit_bounds c d))))
]

compare-place_eq : (a p v w : ℕ) → compare (a * p + v) (a * p + w) ≡ compare v w
compare-place_eq a p v w = ground arith

strcmp-value :
    (s t : Bytes)
    → AllDigits s
    → AllDigits t
    → length s ≡ length t
    → strcmp s t ≡ compare (value s) (value t)
unfolding value strcmp
strcmp-value [] [] h k e = refl
strcmp-value [] (d ∷ t) h k e = absurd (omega arith)
strcmp-value (c ∷ s) [] h k e = absurd (omega arith)
strcmp-value (c ∷ s) (d ∷ t) (hc, h) (kd, k) e =
    let same : length s ≡ length t = omega arith in
    let p = 10 ^ length t in
    let vs : value s < p = rw same at (value-lt s h) in
    rw (same, strcmp-value s t h k same)
      (ground (
        arith,
        digit_bounds c hc,
        digit_bounds d kd,
        place_lt (c - b'0') (d - b'0') p (value s) (value t),
        place_lt (d - b'0') (c - b'0') p (value t) (value s),
        value-lt t k,
        vs,
      ))

-- Of two values without leading zeros the longer one is larger.
longer :
    (s t : Bytes)
    → AllDigits s
    → AllDigits t
    → length (strip_zeros s) < length (strip_zeros t)
    → value s < value t
longer s t h k shorter =
    let a = strip_zeros s in
    let b = strip_zeros t in
    elim (strip_zeros-ge t k) [
      | inl e ↦ absurd (omega (arith, ap length e))
      | inr ge ↦ omega (
        arith,
        value-strip_zeros s,
        value-strip_zeros t,
        value-lt a (strip_zeros-AllDigits s h),
        pow-le-pow_right {n = 10} (omega arith) {i = length a} {j = length b - 1} (omega arith),
      )
    ]

compare_digits-value :
    (s t : Bytes)
    → AllDigits s
    → AllDigits t
    → compare_digits (strip_zeros s) (strip_zeros t) ≡ compare (value s) (value t)
unfolding compare_digits
compare_digits-value s t h k =
    let a = strip_zeros s in
    let b = strip_zeros t in
    ground (
      arith,
      longer s t h k,
      longer t s k h,
      value-strip_zeros s,
      value-strip_zeros t,
      strcmp-value a b (strip_zeros-AllDigits s h) (strip_zeros-AllDigits t k),
    )

take_while_all : (s : Bytes) → AllDigits s → take_while is_digit s ≡ s
take_while_all [] h = refl
take_while_all (c ∷ s) (d, h) = rw d (ap (◌∷◌ c) (take_while_all s h))

drop_while_all : (s : Bytes) → AllDigits s → drop_while is_digit s ≡ []
drop_while_all [] h = refl
drop_while_all (c ∷ s) (d, h) = rw d (drop_while_all s h)

digit_wanted :
    (c : ℕ)
    → is_digit c ≡ true
    → (is_wanted c ≡ true) × ((c == b'~') ≡ false) × ((c == b'^') ≡ false)
unfolding is_wanted is_digit
digit_wanted c h = ground arith

next_token-digits :
    (c : ℕ) (s : Bytes)
    → AllDigits (c ∷ s)
    → next_token (c ∷ s) ≡ some (number (strip_zeros (c ∷ s)), [])
unfolding next_token
next_token-digits c s h =
    ground (arith, digit_wanted c h.0, h.0, take_while_all s h.1, drop_while_all s h.1)

-- A row of digits is one token, its number without leading zeros.
tokens-digits :
    (c : ℕ) (s : Bytes) → AllDigits (c ∷ s) → tokens (c ∷ s) ≡ number (strip_zeros (c ∷ s)) ∷ []
tokens-digits c s h = rw (tokens_lem (c ∷ s), next_token-digits c s h) (rw tokens_nil)

-- Two version strings of digits alone, neither of them empty, compare as the numbers they write.
pub rpmvercmp-value :
    (c d : ℕ) (s t : Bytes)
    → AllDigits (c ∷ s)
    → AllDigits (d ∷ t)
    → rpmvercmp (c ∷ s) (d ∷ t) ≡ compare (value (c ∷ s)) (value (d ∷ t))
unfolding compare_lists compare_tokens
rpmvercmp-value c d s t h k =
    rw
      (
        (rpmvercmp-tokens (c ∷ s) (d ∷ t)).1,
        tokens-digits c s h,
        tokens-digits d t k,
        compare_digits-value (c ∷ s) (d ∷ t) h k,
      )
      (and_then_eq (compare (value (c ∷ s)) (value (d ∷ t))))
