-- ===== src/Version/Evr/Ranges.antt =====
-- On full triples `rpmverOverlap` asks whether two ranges of versions, ordered by `rpmverCmp`, meet.
use native.Mathlib.Nat.{pow-suc}
use rpm.Base.{
  Bool, ◌&&◌, ◌||◌, if◌then◌else◌, ℕ, ◌+◌, ◌*◌, ◌-◌, ◌^◌, ◌≡◌, ◌≢◌, refl, ap, ◌∙◌, true, false,
  Option, none, some, [], ◌∷◌, Ordering, ◌==◌, ltb, Bytes, is_digit, arith, Option-cases, inl, inr,
  length,
}
use rpm.Base.Int.{is_positive}
use rpm.Version.Compare.{rpmvercmp}
use rpm.Version.Compare.Order.{rpmvercmp-flip}
use rpm.Version.Compare.Numbers.{AllDigits, value, rpmvercmp-value}
use rpm.Version.Evr.{
  Evr, is_given, text, atol, epoch_sense, has_positive_epoch, release_sense, version_sense, sense,
  ranges_overlap, rpmver_overlap, has, sense_less, sense_equal, sense_greater, rpmver_cmp,
  compare_values, epoch_or_zero, digits_value, clamp, long_max, is_space,
}
use rpm.Version.Evr.Overlap.{epoch_sense-flip}

digits_value-value :
    (acc : ℕ) (s : Bytes) → AllDigits s → digits_value acc s ≡ acc * 10 ^ length s + value s
unfolding value
digits_value-value acc [] h = omega arith
digits_value-value acc (c ∷ s) h =
    rw (h.0, digits_value-value (acc * 10 + (c - b'0')) s h.1, pow-suc 10 (length s)) (omega arith)

digit_starts :
    (c : ℕ)
    → is_digit c ≡ true
    → (is_space c ≡ false) × ((c == b'-') ≡ false) × ((c == b'+') ≡ false)
unfolding is_digit
digit_starts c h = ground arith

clamp_positive : (n : ℕ) → ltb 0 (clamp long_max n) ≡ ltb 0 n
clamp_positive n = ground arith

-- A row of digits is positive for `atol` if its number is, however large.
atol_digits :
    (c : ℕ) (s : Bytes) → AllDigits (c ∷ s) → is_positive (atol (c ∷ s)) ≡ ltb 0 (value (c ∷ s))
unfolding atol
atol_digits c s h =
    let d = digit_starts c h.0 in
    rw (d.0, d.1, d.2)
      (clamp_positive (digits_value 0 (c ∷ s))
        ∙ ap (ltb 0) (digits_value-value 0 (c ∷ s) h ∙ omega arith))

-- No epoch, or a row of digits.
abbrev pub EpochIsNumber : Option Bytes → Type 0
EpochIsNumber none = Unit
EpochIsNumber (some e) = (e ≢ []) × AllDigits e

zero_digits : AllDigits (b'0' ∷ [])
unfolding is_digit
zero_digits = (refl, tt)

-- A missing epoch and a given one.
epoch_sense-missing :
    (v1 v2 : Evr) (e : Bytes)
    → v1.epoch ≡ some e
    → v2.epoch ≡ none
    → EpochIsNumber (some e)
    → epoch_sense v1 v2 ≡ rpmvercmp e (b'0' ∷ [])
unfolding epoch_sense has_positive_epoch
epoch_sense-missing v1 v2 [] p q h = absurd (h.0 refl)
epoch_sense-missing v1 v2 (c ∷ e) p q h =
    let zero_value : value (b'0' ∷ []) ≡ 0 = unfold value in refl in
    rw (p, q, atol_digits c e h.1, rpmvercmp-value c b'0' e [] h.1 zero_digits, zero_value)
      (ground arith)

rpmvercmp_self : (a : Bytes) → rpmvercmp a a ≡ Ordering.eq
rpmvercmp_self a = ground (arith, rpmvercmp-flip a a)

epoch_sense_given :
    (v1 v2 : Evr) (e1 e2 : Bytes)
    → v1.epoch ≡ some e1
    → v2.epoch ≡ some e2
    → e1 ≢ []
    → e2 ≢ []
    → epoch_sense v1 v2 ≡ rpmvercmp e1 e2
unfolding epoch_sense
epoch_sense_given v1 v2 e1 e2 p q h k = ground arith

epoch_sense_missing_both :
    (v1 v2 : Evr) → v1.epoch ≡ none → v2.epoch ≡ none → epoch_sense v1 v2 ≡ Ordering.eq
unfolding epoch_sense has_positive_epoch
epoch_sense_missing_both v1 v2 p q = ground arith

-- A missing epoch counts as "0".
epoch_sense-cmp :
    (v1 v2 : Evr)
    → EpochIsNumber v1.epoch
    → EpochIsNumber v2.epoch
    → epoch_sense v1 v2 ≡ rpmvercmp (epoch_or_zero v1) (epoch_or_zero v2)
epoch_sense-cmp v1 v2 h k = elim (Option-cases v1.epoch) [
  | inl p ↦ elim (Option-cases v2.epoch) [
    | inl q ↦ ground (arith, epoch_sense_missing_both v1 v2 p q, rpmvercmp_self (b'0' ∷ []))
    | inr (e, q) ↦ ground (
      arith,
      epoch_sense-flip v2 v1,
      epoch_sense-missing v2 v1 e q p (rw q at k),
      rpmvercmp-flip e (b'0' ∷ []),
    )
  ]
  | inr (e, p) ↦ elim (Option-cases v2.epoch) [
    | inl q ↦ ground (arith, epoch_sense-missing v1 v2 e p q (rw p at h))
    | inr (d, q) ↦
        let eh : EpochIsNumber (some e) = rw p at h in
        let dh : EpochIsNumber (some d) = rw q at k in
        ground (arith, epoch_sense_given v1 v2 e d p q eh.0 dh.0)
  ]
]

-- The epoch is missing or a number, and the release is given.
pub record IsFull (v : Evr) : Type 0 where
  pub epoch_number : EpochIsNumber v.epoch
  pub release_given : is_given v.release ≡ true

compare_values_given :
    (r s : Option Bytes)
    → is_given r ≡ true
    → is_given s ≡ true
    → compare_values r s ≡ rpmvercmp (text r) (text s)
unfolding compare_values
compare_values_given none s h k = cc
compare_values_given (some r) none h k = cc
compare_values_given (some r) (some s) h k = refl

sense-cmp :
    (v1 v2 : Evr) (f1 f2 : ℕ) → IsFull v1 → IsFull v2 → sense v1 f1 v2 f2 ≡ some (rpmver_cmp v1 v2)
unfolding sense version_sense release_sense rpmver_cmp
sense-cmp v1 v2 f1 f2 h k = ground (
  arith,
  epoch_sense-cmp v1 v2 h.epoch_number k.epoch_number,
  compare_values_given v1.release v2.release h.release_given k.release_given,
)

-- Where the first and the second version stand on a line of five points, of which the points 0 and 4
-- are outside of both and the point 2 is between them or both.
unfoldable pub first_point : Ordering → ℕ
first_point Ordering.lt = 1
first_point Ordering.eq = 2
first_point Ordering.gt = 3

unfoldable pub second_point : Ordering → ℕ
second_point Ordering.lt = 3
second_point Ordering.eq = 2
second_point Ordering.gt = 1

-- Whether the range of the flags `f` at the point `p` has the point `x`.
unfoldable pub contains : ℕ → ℕ → ℕ → Bool
unfolding has
contains f p x =
    if ltb x p then has f sense_less else if x == p then has f sense_equal else has f sense_greater

-- Whether the ranges at the points `p` and `q` share one of the five.
unfoldable pub share : ℕ → ℕ → ℕ → ℕ → Bool
unfolding contains
share f1 p f2 q =
    contains f1 p 0 && contains f2 q 0
    || contains f1 p 1 && contains f2 q 1
    || contains f1 p 2 && contains f2 q 2
    || contains f1 p 3 && contains f2 q 3
    || contains f1 p 4 && contains f2 q 4

-- The flags say lower, equal or greater.
abbrev pub IsRange : ℕ → Type 0
IsRange f = (has f sense_less || has f sense_equal || has f sense_greater) ≡ true

ranges_overlap-share :
    (o : Ordering) (f1 f2 : ℕ)
    → IsRange f1
    → IsRange f2
    → ranges_overlap o f1 f2 ≡ share f1 (first_point o) f2 (second_point o)
unfolding ranges_overlap share contains first_point second_point
ranges_overlap-share Ordering.lt f1 f2 h k = ground arith
ranges_overlap-share Ordering.gt f1 f2 h k = ground arith
ranges_overlap-share Ordering.eq f1 f2 h k = ground arith

-- On triples whose epochs are missing or numbers and whose releases are given, with flags that say
-- lower, equal or greater, two ranges overlap exactly if they share a point of a line on which
-- `rpmverCmp` places the two versions, with points below, between and above them.
pub rpmver_overlap-cmp :
    (v1 v2 : Evr) (f1 f2 : ℕ)
    → IsFull v1
    → IsFull v2
    → IsRange f1
    → IsRange f2
    → rpmver_overlap v1 f1 v2 f2
      ≡ share f1 (first_point (rpmver_cmp v1 v2)) f2 (second_point (rpmver_cmp v1 v2))
unfolding rpmver_overlap
rpmver_overlap-cmp v1 v2 f1 f2 h k r1 r2 =
    ground (arith, sense-cmp v1 v2 f1 f2 h k, ranges_overlap-share (rpmver_cmp v1 v2) f1 f2 r1 r2)
