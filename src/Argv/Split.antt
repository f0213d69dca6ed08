-- ===== src/Argv/Split.antt =====
-- argvSplitString gives the fields of the text.
use rpm.Base.{
  ℕ, zero, suc, ◌+◌, ◌≤◌, ◌≡◌, ◌≢◌, refl, ap, Bool, false, ◌&&◌, List, [], ◌∷◌, ◌==◌, length,
  length-drop, drop, take_while, is_empty, Bytes, All, Bool-cases, inl, inr, arith, if◌then◌else◌,
}
use rpm.Argv.{is_sep, mark, count_seps, is_nul, not_nul, split_loop, split_text}
use rpm.Argv.Fields.{fields, fields-step, fields-mark, length-fields, trim, keep}

-- The first field and the others, put together as the loop does.
piece_then : Bool → Bytes → List Bytes → List Bytes
piece_then skip_empty piece rest = if skip_empty && is_empty piece then rest else piece ∷ rest

keep-trim-cons :
    (skip_empty : Bool) (piece : Bytes) (xs : List Bytes)
    → 1 ≤ length xs
    → keep skip_empty (trim (piece ∷ xs)) ≡ piece_then skip_empty piece (keep skip_empty (trim xs))
unfolding trim keep piece_then
keep-trim-cons skip_empty piece [] h = absurd (omega arith)
keep-trim-cons skip_empty piece (x ∷ xs) h = refl

keep-trim_last :
    (skip_empty : Bool) (piece : Bytes)
    → is_empty piece ≡ false
    → keep skip_empty (trim (piece ∷ [])) ≡ piece_then skip_empty piece []
unfolding trim keep piece_then
keep-trim_last skip_empty [] h = absurd (ground arith)
keep-trim_last skip_empty (c ∷ piece) h = refl

length-fields-ne : (s : Bytes) → 1 ≤ length (fields is_nul s)
length-fields-ne s = ground (arith, ap length (fields-step s))

length_0 : (s : Bytes) → length s ≡ 0 → s ≡ []
length_0 [] h = refl
length_0 (c ∷ cs) h = absurd (omega arith)

drop_all : (n : ℕ) (s : Bytes) → length s ≤ n → drop n s ≡ []
drop_all n s h = length_0 (drop n s) (omega (arith, length-drop n s))

split_loop_empty : (skip_empty : Bool) (n : ℕ) → split_loop skip_empty n [] ≡ []
unfolding split_loop
split_loop_empty skip_empty zero = refl
split_loop_empty skip_empty (suc n) = refl

split_loop-round :
    (skip_empty : Bool) (n : ℕ) (s : Bytes)
    → is_empty s ≡ false
    → split_loop skip_empty (suc n) s
      ≡ piece_then skip_empty
          (take_while not_nul s)
          (split_loop skip_empty n (drop (length (take_while not_nul s) + 1) s))
unfolding split_loop piece_then
split_loop-round skip_empty n [] h = absurd (ground arith)
split_loop-round skip_empty n (c ∷ cs) h = refl

is_empty-length : (s : Bytes) → 1 ≤ length s → is_empty s ≡ false
is_empty-length [] h = absurd (omega arith)
is_empty-length (c ∷ cs) h = refl

empty-fields :
    (skip_empty : Bool) (n : ℕ)
    → split_loop skip_empty n [] ≡ keep skip_empty (trim (fields is_nul []))
unfolding fields trim keep
empty-fields skip_empty n = split_loop_empty skip_empty n

split_step :
    (skip_empty : Bool) (n : ℕ) (s : Bytes)
    → 1 ≤ length s
    → split_loop skip_empty n (drop (length (take_while not_nul s) + 1) s)
      ≡ keep skip_empty (trim (fields is_nul (drop (length (take_while not_nul s) + 1) s)))
    → split_loop skip_empty (suc n) s ≡ keep skip_empty (trim (fields is_nul s))
split_step skip_empty n s h ih =
    let piece = take_while not_nul s in
    let behind = drop (length piece + 1) s in
    elim (Bool-cases (length piece == length s)) [
      | inl e ↦
          let same : length piece ≡ length s = ground arith in
          let nothing : behind ≡ [] = drop_all (length piece + 1) s (omega arith) in
          rw (
            split_loop-round skip_empty n s (is_empty-length s h),
            nothing,
            split_loop_empty skip_empty n,
            fields-step s,
            e,
            keep-trim_last skip_empty piece (is_empty-length piece (omega arith)),
          )
      | inr e ↦ rw (
        split_loop-round skip_empty n s (is_empty-length s h),
        ih,
        fields-step s,
        e,
        keep-trim-cons skip_empty piece (fields is_nul behind) (length-fields-ne behind),
      )
    ]

split_loop-fields :
    (skip_empty : Bool) (n : ℕ) (s : Bytes)
    → length s ≤ n
    → split_loop skip_empty n s ≡ keep skip_empty (trim (fields is_nul s))
split_loop-fields skip_empty zero [] h = empty-fields skip_empty zero
split_loop-fields skip_empty zero (c ∷ cs) h = absurd (omega arith)
split_loop-fields skip_empty (suc n) [] h = empty-fields skip_empty (suc n)
split_loop-fields skip_empty (suc n) (c ∷ cs) h =
    let behind = drop (length (take_while not_nul (c ∷ cs)) + 1) (c ∷ cs) in
    split_step skip_empty n (c ∷ cs) (omega arith) (
      split_loop-fields skip_empty n behind
        (omega (arith, length-drop (length (take_while not_nul (c ∷ cs)) + 1) (c ∷ cs))))

length-mark : (seps str : Bytes) → length (mark seps str) ≡ length str
unfolding mark
length-mark seps [] = refl
length-mark seps (c ∷ cs) = ap suc (length-mark seps cs)

-- argvSplitString gives the fields that the separators make of the text, without an empty last one,
-- and where it is asked to, without all empty ones, if the text has no NUL.
pub split_text-fields :
    (skip_empty : Bool) (str seps : Bytes)
    → All (λ c. c ≢ 0) str
    → split_text skip_empty str seps ≡ keep skip_empty (trim (fields (is_sep seps) str))
unfolding split_text
split_text-fields skip_empty str seps h = rw (
  split_loop-fields skip_empty (length str) (mark seps str) (omega (arith, length-mark seps str)),
  fields-mark seps str h,
)

length-keep : (skip_empty : Bool) (xs : List Bytes) → length (keep skip_empty xs) ≤ length xs
unfolding keep
length-keep skip_empty [] = omega arith
length-keep skip_empty (x ∷ xs) = ground (arith, length-keep skip_empty xs)

length-trim : (xs : List Bytes) → length (trim xs) ≤ length xs
unfolding trim
length-trim [] = omega arith
length-trim (x ∷ []) = ground arith
length-trim (x ∷ y ∷ ys) = omega (arith, length-trim (y ∷ ys))

-- argvSplitString does not give more strings than the separators that it counted and one, for which
-- its array has space, if the text has no NUL.
split_text-length :
    (skip_empty : Bool) (str seps : Bytes)
    → All (λ c. c ≢ 0) str
    → length (split_text skip_empty str seps) ≤ count_seps seps str + 1
split_text-length skip_empty str seps h =
    let all = fields (is_sep seps) str in
    omega (
      arith,
      length-keep skip_empty (trim all),
      length-trim all,
      length-fields seps str,
      ap length (split_text-fields skip_empty str seps h),
    )
