-- ===== src/Version/Evr/Parse.antt =====
-- `rpmverParse` and `rpmverEVR` undo one another.
use rpm.Base.{
  ℕ, ◌≡◌, inl, inr, ap, true, false, ◌&&◌, some, [], ◌∷◌, ◌++◌, ◌==◌, if◌then◌else◌, Bytes,
  is_empty, take_while, drop_while, take_while-append-drop_while, is_digit, arith, append_assoc,
  append-nil, Bool-cases, Option-cases,
}
use rpm.Version.Compare.{at, tail}
use rpm.Version.Evr.{
  dashed, parse_behind, Evr, split_last, before_dash, after_dash, parse_evr, rpmver_parse,
  rpmver_evr,
}

-- The text is put together again from the two sides of its last dash.
split_last-append :
    (s : Bytes) {before after : Bytes}
    → split_last b'-' s ≡ some (before, after)
    → before ++ b'-' ∷ after ≡ s
unfolding split_last
split_last-append [] h = cc
split_last-append (x ∷ s) h = elim (Option-cases (split_last b'-' s)) [
  | inl e ↦ ground arith
  | inr ((b, a), e) ↦ ground (arith, split_last-append s e)
]

pub before_dash-after_dash : (s : Bytes) → before_dash s ++ dashed (after_dash s) ≡ s
unfolding before_dash after_dash
before_dash-after_dash s = elim (Option-cases (split_last b'-' s)) [
  | inl e ↦ rw (e, before_dash, after_dash) (append-nil s)
  | inr ((b, a), e) ↦ rw (e, before_dash, after_dash) (split_last-append s e)
]

-- A first character other than a dash stays before the dash.
pub split_at-cons :
    (c : ℕ) (s : Bytes)
    → (c == b'-') ≡ false
    → (before_dash (c ∷ s) ≡ c ∷ before_dash s) × (after_dash (c ∷ s) ≡ after_dash s)
unfolding before_dash after_dash split_last
split_at-cons c s h = ground arith

colon_rest :
    (s : Bytes) → at b':' s ≡ true → b':' ∷ (tail (before_dash s) ++ dashed (after_dash s)) ≡ s
colon_rest [] h = cc
colon_rest (c ∷ s) h =
    let split = split_at-cons c s (ground arith) in
    rw (split.0, split.1, before_dash-after_dash s) (ground arith)

digit_no_colon : (c : ℕ) → is_digit c ≡ true → (c == b':') ≡ false
unfolding is_digit
digit_no_colon c h = ground arith

rpmver_evr-parse_behind :
    (digits s : Bytes)
    → rpmver_evr (parse_behind digits s)
      ≡ (if is_empty digits && at b':' s then b'0' ∷ s else digits ++ s)
unfolding rpmver_evr parse_behind
rpmver_evr-parse_behind [] s = elim (Bool-cases (at b':' s)) [
  | inl colon ↦ rw colon (ap (◌∷◌ b'0') (colon_rest s colon))
  | inr plain ↦ rw plain (before_dash-after_dash s)
]
rpmver_evr-parse_behind (c ∷ d) s = elim (Bool-cases (at b':' s)) [
  | inl colon ↦
      rw (colon, append_assoc d (b':' ∷ []) (tail (before_dash s) ++ dashed (after_dash s)))
        (ap (λ r. c ∷ (d ++ r)) (colon_rest s colon))
  | inr plain ↦
      rw (plain, append_assoc d (before_dash s) (dashed (after_dash s)))
        (ap (λ r. c ∷ (d ++ r)) (before_dash-after_dash s))
]

rpmver_evr-parse_evr : (s : Bytes) → rpmver_evr (parse_evr s) ≡ (if at b':' s then b'0' ∷ s else s)
unfolding parse_evr
rpmver_evr-parse_evr [] = rpmver_evr-parse_behind [] []
rpmver_evr-parse_evr (c ∷ s) = ground (
  arith,
  digit_no_colon c,
  rpmver_evr-parse_behind [] (c ∷ s),
  rpmver_evr-parse_behind (c ∷ take_while is_digit s) (drop_while is_digit s),
  take_while-append-drop_while is_digit s,
)

-- What is printed of a text that was parsed is the text, with a 0 in front if it begins with a colon.
rpmver_evr-parse :
    (s : Bytes) {rv : Evr}
    → rpmver_parse (some s) ≡ some rv
    → rpmver_evr rv ≡ (if at b':' s then b'0' ∷ s else s)
unfolding rpmver_parse
rpmver_evr-parse [] h = cc
rpmver_evr-parse (c ∷ s) h = ground (arith, rpmver_evr-parse_evr (c ∷ s))
