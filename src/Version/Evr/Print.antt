-- ===== src/Version/Evr/Print.antt =====
-- A triple that is printed by `rpmverEVR` is read back by `rpmverParse`.
use rpm.Base.{
  ℕ, ◌≡◌, ◌≢◌, inl, inr, refl, ap, ◌∙◌, true, false, Option, none, some, [], ◌∷◌, ◌++◌, ◌==◌, Bytes,
  take_while, drop_while, take_while-append-drop_while, is_digit, arith, All, append_assoc,
  append-nil, Bool-cases,
}
use rpm.Version.Compare.{at}
use rpm.Version.Evr.{
  dashed, coloned, parse_behind, Evr, split_last, before_dash, after_dash, parse_evr, rpmver_parse,
  rpmver_evr,
}
use rpm.Version.Evr.Parse.{split_at-cons}

abbrev pub NoDash : Bytes → Type 0
NoDash = All (λ c. (c == b'-') ≡ false)

abbrev pub AllDigits : Bytes → Type 0
AllDigits = All (λ c. is_digit c ≡ true)

-- An epoch is a row of digits; without one the version is not read as one.
abbrev pub EpochFits : Option Bytes → Bytes → Type 0
EpochFits none version = at b':' (drop_while is_digit version) ≡ false
EpochFits (some e) version = (e ≢ []) × AllDigits e

-- The last dash of the text is the one before the release.
abbrev pub DashFits : Bytes → Option Bytes → Type 0
DashFits version none = NoDash version
DashFits version (some r) = NoDash r

-- A triple that a text can give.
pub record IsCanonical (rv : Evr) : Type 0 where
  pub version_given : rv.version ≢ []
  pub epoch_fits : EpochFits rv.epoch rv.version
  pub dash_fits : DashFits rv.version rv.release

split_last-NoDash : (s : Bytes) → NoDash s → split_last b'-' s ≡ none
unfolding split_last
split_last-NoDash [] h = refl
split_last-NoDash (c ∷ s) h = ground (arith, split_last-NoDash s h.1)

split_last-dash : (v r : Bytes) → NoDash r → split_last b'-' (v ++ b'-' ∷ r) ≡ some (v, r)
unfolding split_last
split_last-dash [] r h = ground (arith, split_last-NoDash r h)
split_last-dash (c ∷ v) r h = ground (arith, split_last-dash v r h)

split_dashed :
    (v : Bytes) (r : Option Bytes)
    → DashFits v r
    → (before_dash (v ++ dashed r) ≡ v) × (after_dash (v ++ dashed r) ≡ r)
unfolding before_dash after_dash
split_dashed v none h = rw append-nil (ground (arith, split_last-NoDash v h))
split_dashed v (some r) h = ground (arith, split_last-dash v r h)

digit_no_dash : (c : ℕ) → is_digit c ≡ true → ((c == b'-') ≡ false) × ((c == b':') ≡ false)
unfolding is_digit
digit_no_dash c h = ground arith

-- Digits in front of a text do not move its last dash.
split_digits :
    (d s : Bytes)
    → AllDigits d
    → (before_dash (d ++ s) ≡ d ++ before_dash s) × (after_dash (d ++ s) ≡ after_dash s)
split_digits [] s h = (refl, refl)
split_digits (c ∷ d) s h =
    ground (arith, digit_no_dash c h.0, split_at-cons c (d ++ s), split_digits d s h.1)

take_while-AllDigits : (s : Bytes) → AllDigits (take_while is_digit s)
take_while-AllDigits [] = tt
take_while-AllDigits (c ∷ s) = elim (Bool-cases (is_digit c)) [
  | inl d ↦ rw d (d, take_while-AllDigits s)
  | inr d ↦ rw d tt
]

scan_digits :
    (d s : Bytes)
    → AllDigits d
    → (take_while is_digit (d ++ b':' ∷ s) ≡ d) × (drop_while is_digit (d ++ b':' ∷ s) ≡ b':' ∷ s)
scan_digits [] s h = unfold is_digit in (refl, refl)
scan_digits (c ∷ d) s h = ground (arith, scan_digits d s h.1, h.0)

no_colon :
    (v : Bytes) (r : Option Bytes)
    → at b':' (drop_while is_digit v) ≡ false
    → at b':' (drop_while is_digit (v ++ dashed r)) ≡ false
no_colon [] none h = h
no_colon [] (some r) h = unfold is_digit in refl
no_colon (c ∷ v) r h = ground (arith, no_colon v r)

parse_evr-coloned :
    (e r : Option Bytes) (v : Bytes)
    → EpochFits e v
    → DashFits v r
    → parse_evr (coloned e ++ (v ++ dashed r)) ≡ record { epoch = e; version = v; release = r }
unfolding parse_evr parse_behind
parse_evr-coloned none r v h k =
    let x = v ++ dashed r in
    ground (
      arith,
      no_colon v r h,
      split_digits (take_while is_digit x) (drop_while is_digit x) (take_while-AllDigits x),
      take_while-append-drop_while is_digit x,
      split_dashed v r k,
    )
parse_evr-coloned (some e) r v h k =
    let x = v ++ dashed r in
    rw (append_assoc e (b':' ∷ []) x)
      (ground (arith, scan_digits e x h.1, split_at-cons b':' x refl, split_dashed v r k, h.0))

printed-ne-nil : (e r : Option Bytes) (v : Bytes) → v ≢ [] → coloned e ++ (v ++ dashed r) ≢ []
printed-ne-nil none r [] h p = h refl
printed-ne-nil none r (c ∷ v) h p = cc
printed-ne-nil (some []) r v h p = cc
printed-ne-nil (some (c ∷ e)) r v h p = cc

rpmver_parse-parse_evr : (s : Bytes) → s ≢ [] → rpmver_parse (some s) ≡ some (parse_evr s)
unfolding rpmver_parse
rpmver_parse-parse_evr [] h = absurd (h refl)
rpmver_parse-parse_evr (c ∷ s) h = refl

-- Parsing what is printed of a triple gives it back, if its version is not empty, its epoch is a row
-- of digits or is missing and the version does not begin with digits and a colon, and the release,
-- or with no release the version, has no dash.
pub parse-rpmver_evr : (rv : Evr) → IsCanonical rv → rpmver_parse (some (rpmver_evr rv)) ≡ some rv
unfolding rpmver_evr
parse-rpmver_evr rv h =
    rpmver_parse-parse_evr (rpmver_evr rv)
      (printed-ne-nil rv.epoch rv.release rv.version h.version_given)
    ∙ ap some (parse_evr-coloned rv.epoch rv.release rv.version h.epoch_fits h.dash_fits)
