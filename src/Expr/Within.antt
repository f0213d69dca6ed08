-- ===== src/Expr/Within.antt =====
-- Calls that do not run out of fuel, with a bound of what they return: the loops of rpmio/macro.cc and
-- rpmio/expression.cc that look for the end of a macro or of a literal.
use rpm.Base.{
  ℕ, zero, suc, ◌+◌, ◌-◌, ◌≤◌, Bool, ◌&&◌, ◌||◌, [], ◌∷◌, ◌==◌, leb, length, drop_while,
  length-drop_while, Bytes, arith, if◌then◌else◌, Bool-cases, inl, inr,
}
use rpm.Macro.{matchchar, is_name_char, skip_dash, skip_suffix, name_end, find_macro_end}
use rpm.Expr.{Outcome, done, failed, fault, out_of_fuel, next}
use rpm.Expr.Lexer.{at_match, skip_macro, token_end}

-- Not out of fuel; and what is returned has at most the size `n`.
abbrev pub Within : {A : Type 0} → (A → ℕ) → ℕ → Outcome A → Type 0
Within size n (done a) = size a ≤ n
Within size n failed = Unit
Within size n fault = Unit
Within size n out_of_fuel = ⊥

pub Within-next :
    {A B : Type 0} (size : A → ℕ) (size' : B → ℕ) (n m : ℕ) (o : Outcome A) (f : A → Outcome B)
    → Within size n o
    → ((a : A) → size a ≤ n → Within size' m (f a))
    → Within size' m (next o f)
unfolding next
Within-next size size' n m (done a) f h g = g a h
Within-next size size' n m failed f h g = tt
Within-next size size' n m fault f h g = tt
Within-next size size' n m out_of_fuel f h g = absurd h

pub Within-more :
    {A : Type 0} (size : A → ℕ) (n m : ℕ) (o : Outcome A)
    → n ≤ m
    → Within size n o
    → Within size m o
Within-more size n m (done a) l h = omega arith
Within-more size n m failed l h = tt
Within-more size n m fault l h = tt
Within-more size n m out_of_fuel l h = h

matchchar-length :
    (pl pr lvl : ℕ) (s : Bytes) → Within length (length s) (at_match (matchchar pl pr lvl s))
unfolding matchchar at_match
matchchar-length pl pr lvl [] = omega arith
matchchar-length pl pr lvl (c ∷ []) = elim (Bool-cases (c == 92)) [
  | inl e ↦ rw e tt
  | inr e ↦ elim (Bool-cases (c == pr && leb lvl 1)) [
    | inl h ↦ rw (e, h) (omega arith)
    | inr h ↦ rw (e, h) (omega arith)
  ]
]
matchchar-length pl pr lvl (c ∷ x ∷ p) =
    let a = matchchar-length pl pr lvl p in
    let b = matchchar-length pl pr (lvl - 1) (x ∷ p) in
    let d = matchchar-length pl pr (if c == pl then lvl + 1 else lvl) (x ∷ p) in
    elim (Bool-cases (c == 92)) [
      | inl e ↦
          rw (matchchar, e)
            (Within-more length (length p) (suc (suc (length p))) (at_match (matchchar pl pr lvl p))
              (omega arith) a)
      | inr e ↦ elim (Bool-cases (c == pr)) [
        | inl h ↦ elim (Bool-cases (leb lvl 1)) [
          | inl k ↦ rw (matchchar, e, h, k) (omega arith)
          | inr k ↦
              rw (matchchar, e, h, k)
                (Within-more length (suc (length p)) (suc (suc (length p))) _ (omega arith) b)
        ]
        | inr h ↦
            rw (matchchar, e, h)
              (Within-more length (suc (length p)) (suc (suc (length p))) _ (omega arith) d)
      ]
    ]

skip_dash-length : (s : Bytes) → length (skip_dash s) ≤ length s
unfolding skip_dash
skip_dash-length [] = omega arith
skip_dash-length (c ∷ s) = ground arith

skip_suffix-length : (s : Bytes) → length (skip_suffix s) ≤ length s
unfolding skip_suffix
skip_suffix-length [] = omega arith
skip_suffix-length (c ∷ []) = ground arith
skip_suffix-length (c ∷ x ∷ s) = ground arith

name_end-length : (s : Bytes) → length (name_end s) ≤ length s
unfolding name_end
name_end-length s =
    let q = drop_while (λ c. c == b'?' || c == b'!') s in
    let n = drop_while is_name_char (skip_dash q) in
    omega (
      arith,
      length-drop_while (λ c. c == b'?' || c == b'!') s,
      skip_dash-length q,
      length-drop_while is_name_char (skip_dash q),
      skip_suffix-length n,
    )

find_macro_end-length : (s : Bytes) → Within length (length s) (at_match (find_macro_end s))
unfolding find_macro_end
find_macro_end-length [] = unfold at_match in omega arith
find_macro_end-length (c ∷ s) = elim (Bool-cases (c == b'(')) [
  | inl e ↦ rw e (matchchar-length c b')' 0 (c ∷ s))
  | inr e ↦ elim (Bool-cases (c == b'{')) [
    | inl h ↦ rw (e, h) (matchchar-length c b'}' 0 (c ∷ s))
    | inr h ↦ elim (Bool-cases (c == b'[')) [
      | inl k ↦ rw (e, h, k) (matchchar-length c b']' 0 (c ∷ s))
      | inr k ↦ rw (e, h, k) (unfold at_match in name_end-length (c ∷ s))
    ]
  ]
]

pub skip_macro-length : (s : Bytes) → Within length (length s) (skip_macro s)
unfolding skip_macro
skip_macro-length [] = find_macro_end-length []
skip_macro-length (c ∷ s) = elim (Bool-cases (c == b'%')) [
  | inl e ↦ rw e (omega arith)
  | inr e ↦ rw e (find_macro_end-length (c ∷ s))
]

pub token_end-length :
    (f : ℕ) (stops : ℕ → Bool) (expand : Bool) (s : Bytes)
    → Within length (length s) (token_end f stops expand s)
unfolding token_end
token_end-length zero stops expand s = omega arith
token_end-length (suc f) stops expand [] = omega arith
token_end-length (suc f) stops expand (c ∷ s) = elim (Bool-cases (c == b'%' && expand)) [
  | inl e ↦
      rw (token_end, e)
        (Within-next length length (length s) (suc (length s)) (skip_macro s)
          (token_end f stops expand) (skip_macro-length s)
          (λ r l.
            Within-more length (length r) (suc (length s)) (token_end f stops expand r)
              (omega arith) (token_end-length f stops expand r)))
  | inr e ↦ elim (Bool-cases (stops c)) [
    | inl h ↦ rw (token_end, e, h) (omega arith)
    | inr h ↦
        rw (token_end, e, h)
          (Within-more length (length s) (suc (length s)) (token_end f stops expand s) (omega arith)
            (token_end-length f stops expand s))
  ]
]
