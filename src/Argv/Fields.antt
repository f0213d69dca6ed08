-- ===== src/Argv/Fields.antt =====
-- The fields of a text, described without the copy and the loop.
use rpm.Base.{
  ℕ, ◌+◌, ◌≤◌, ◌≡◌, ◌≢◌, refl, ap, Bool, true, false, not, ◌&&◌, List, [], ◌∷◌, ◌++◌, ◌==◌, length,
  drop, take_while, is_empty, Bytes, All, Bool-cases, inl, inr, arith, if◌then◌else◌,
}
use rpm.Argv.{is_sep, mark, count_seps, is_nul, not_nul}

cons_first : ℕ → List Bytes → List Bytes
cons_first c [] = (c ∷ []) ∷ []
cons_first c (field ∷ fields) = (c ∷ field) ∷ fields

-- A field ends at each byte of the test.
unfoldable pub fields : (ℕ → Bool) → Bytes → List Bytes
unfolding cons_first
fields ends [] = [] ∷ []
fields ends (c ∷ cs) = let rest = fields ends cs in if ends c then [] ∷ rest else cons_first c rest

-- An empty last field is none.
unfoldable pub trim : List Bytes → List Bytes
trim [] = []
trim (x ∷ []) = if is_empty x then [] else x ∷ []
trim (x ∷ y ∷ ys) = x ∷ trim (y ∷ ys)

unfoldable pub keep : Bool → List Bytes → List Bytes
keep skip_empty [] = []
keep skip_empty (x ∷ xs) =
    let rest = keep skip_empty xs in if skip_empty && is_empty x then rest else x ∷ rest

pub not_nul-false : (c : ℕ) → is_nul c ≡ true → not_nul c ≡ false
unfolding not_nul
not_nul-false c e = ap not e

pub not_nul-true : (c : ℕ) → is_nul c ≡ false → not_nul c ≡ true
unfolding not_nul
not_nul-true c e = ap not e

-- The first field and the others.
pub fields-step :
    (s : Bytes)
    → fields is_nul s
      ≡ take_while not_nul s
        ∷ (if length (take_while not_nul s) == length s
            then []
            else fields is_nul (drop (length (take_while not_nul s) + 1) s))
unfolding fields cons_first
fields-step [] = refl
fields-step (c ∷ cs) = elim (Bool-cases (is_nul c)) [
  | inl e ↦ rw (e, not_nul-false c e) (ground arith)
  | inr e ↦ rw (e, not_nul-true c e, fields-step cs) (ground arith)
]

pub fields-mark :
    (seps str : Bytes)
    → All (λ c. c ≢ 0) str
    → fields is_nul (mark seps str) ≡ fields (is_sep seps) str
unfolding fields mark is_nul
fields-mark seps [] h = refl
fields-mark seps (c ∷ cs) h = ground (arith, fields-mark seps cs h.1)

length-cons_first : (c : ℕ) (xs : List Bytes) → 1 ≤ length xs → length (cons_first c xs) ≡ length xs
unfolding cons_first
length-cons_first c [] h = absurd (omega arith)
length-cons_first c (x ∷ xs) h = refl

pub length-fields : (seps str : Bytes) → length (fields (is_sep seps) str) ≡ count_seps seps str + 1
unfolding fields count_seps
length-fields seps [] = refl
length-fields seps (c ∷ cs) =
    ground (arith, length-fields seps cs, length-cons_first c (fields (is_sep seps) cs))

-- A field that is followed by an end.
pub fields-append :
    (ends : ℕ → Bool) (x : Bytes) (c : ℕ) (rest : Bytes)
    → All (λ i. ends i ≡ false) x
    → ends c ≡ true
    → fields ends (x ++ c ∷ rest) ≡ x ∷ fields ends rest
unfolding fields cons_first
fields-append ends [] c rest h e = rw e
fields-append ends (i ∷ x) c rest h e = rw (h.0, fields-append ends x c rest h.1 e)

pub fields_single :
    (ends : ℕ → Bool) (x : Bytes) → All (λ i. ends i ≡ false) x → fields ends x ≡ x ∷ []
unfolding fields cons_first
fields_single ends [] h = refl
fields_single ends (i ∷ x) h = rw (h.0, fields_single ends x h.1)
