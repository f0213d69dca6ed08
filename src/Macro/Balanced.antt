-- ===== src/Macro/Balanced.antt =====
-- `matchchar` and `findMacroEnd` of rpmio/macro.cc on a call in brackets.
use rpm.Base.{ℕ, ◌+◌, ◌-◌, ◌≤◌, ◌≡◌, ◌≢◌, refl, ap, ◌∙◌, [], ◌∷◌, ◌++◌, append_assoc, Bytes, arith}
use rpm.Macro.{found, matchchar, find_macro_end}

-- Texts between brackets: each bracket inside has its partner or a backslash before it.
pub data IsBalanced (pl pr : ℕ) : Bytes → Type 0 where
  empty : IsBalanced pl pr []
  plain :
      (c : ℕ) (t : Bytes) → c ≢ pl → c ≢ pr → c ≢ 92 → IsBalanced pl pr t → IsBalanced pl pr (c ∷ t)
  escaped : (c : ℕ) (t : Bytes) → IsBalanced pl pr t → IsBalanced pl pr (92 ∷ c ∷ t)
  nested :
      (t u : Bytes)
      → IsBalanced pl pr t
      → IsBalanced pl pr u
      → IsBalanced pl pr (pl ∷ (t ++ pr ∷ u))

matchchar-plain :
    (pl pr lvl c : ℕ) (t : Bytes)
    → c ≢ pl
    → c ≢ pr
    → c ≢ 92
    → t ≢ []
    → matchchar pl pr lvl (c ∷ t) ≡ matchchar pl pr lvl t
unfolding matchchar
matchchar-plain pl pr lvl c [] h k n e = absurd (e refl)
matchchar-plain pl pr lvl c (x ∷ t) h k n e = ground (arith, h, k, n)

matchchar-open :
    (pl pr lvl : ℕ) (t : Bytes)
    → pl ≢ pr
    → pl ≢ 92
    → t ≢ []
    → matchchar pl pr lvl (pl ∷ t) ≡ matchchar pl pr (lvl + 1) t
unfolding matchchar
matchchar-open pl pr lvl [] h k e = absurd (e refl)
matchchar-open pl pr lvl (x ∷ t) h k e = ground (arith, h, k)

matchchar-close :
    (pl pr lvl : ℕ) (t : Bytes)
    → pr ≢ 92
    → 2 ≤ lvl
    → t ≢ []
    → matchchar pl pr lvl (pr ∷ t) ≡ matchchar pl pr (lvl - 1) t
unfolding matchchar
matchchar-close pl pr lvl [] h k e = absurd (e refl)
matchchar-close pl pr lvl (x ∷ t) h k e = ground (arith, h)

matchchar-last :
    (pl pr lvl : ℕ) (t : Bytes) → pr ≢ 92 → lvl ≤ 1 → matchchar pl pr lvl (pr ∷ t) ≡ found t
unfolding matchchar
matchchar-last pl pr lvl [] h k = ground (arith, h)
matchchar-last pl pr lvl (x ∷ t) h k = ground (arith, h)

matchchar-escaped :
    (pl pr lvl c : ℕ) (t : Bytes) → matchchar pl pr lvl (92 ∷ c ∷ t) ≡ matchchar pl pr lvl t
unfolding matchchar
matchchar-escaped pl pr lvl c t = refl

not_empty : (c : ℕ) (t u : Bytes) → t ++ c ∷ u ≢ []
not_empty c [] u e = ground arith
not_empty c (x ∷ t) u e = ground arith

-- What is balanced is passed over, at each depth.
matchchar-balanced :
    (pl pr : ℕ) (t rest : Bytes) (lvl : ℕ)
    → pl ≢ pr
    → pl ≢ 92
    → pr ≢ 92
    → 1 ≤ lvl
    → IsBalanced pl pr t
    → matchchar pl pr lvl (t ++ pr ∷ rest) ≡ matchchar pl pr lvl (pr ∷ rest)
matchchar-balanced pl pr _ rest lvl h k n l empty = refl
matchchar-balanced pl pr _ rest lvl h k n l (plain c t a b d i) =
    matchchar-plain pl pr lvl c (t ++ pr ∷ rest) a b d (not_empty pr t rest)
    ∙ matchchar-balanced pl pr t rest lvl h k n l i
matchchar-balanced pl pr _ rest lvl h k n l (escaped c t i) =
    matchchar-escaped pl pr lvl c (t ++ pr ∷ rest) ∙ matchchar-balanced pl pr t rest lvl h k n l i
matchchar-balanced pl pr _ rest lvl h k n l (nested t u i j) =
    let behind = u ++ pr ∷ rest in
    let down : lvl + 1 - 1 ≡ lvl = omega arith in
    ap (λ x. matchchar pl pr lvl (pl ∷ x)) (append_assoc t (pr ∷ u) (pr ∷ rest))
    ∙ (matchchar-open pl pr lvl (t ++ pr ∷ behind) h k (not_empty pr t behind)
        ∙ (matchchar-balanced pl pr t behind (lvl + 1) h k n (omega arith) i
            ∙ (matchchar-close pl pr (lvl + 1) behind n (omega arith) (not_empty pr u rest)
                ∙ (ap (λ x. matchchar pl pr x behind) down
                    ∙ matchchar-balanced pl pr u rest lvl h k n l j))))

matchchar-call :
    (pl pr : ℕ) (t rest : Bytes)
    → pl ≢ pr
    → pl ≢ 92
    → pr ≢ 92
    → IsBalanced pl pr t
    → matchchar pl pr 0 (pl ∷ (t ++ pr ∷ rest)) ≡ found rest
matchchar-call pl pr t rest h k n i =
    matchchar-open pl pr 0 (t ++ pr ∷ rest) h k (not_empty pr t rest)
    ∙ (matchchar-balanced pl pr t rest 1 h k n (omega arith) i
        ∙ matchchar-last pl pr 1 rest n (omega arith))

-- The brackets of calls.
pub data Brackets : ℕ → ℕ → Type 0 where
  braces : Brackets b'{' b'}'
  parentheses : Brackets b'(' b')'
  square : Brackets b'[' b']'

-- A call in brackets ends behind the bracket that closes it, however brackets are nested in it.
pub find_macro_end-balanced :
    (pl pr : ℕ) (t rest : Bytes)
    → Brackets pl pr
    → IsBalanced pl pr t
    → find_macro_end (pl ∷ (t ++ pr ∷ rest)) ≡ found rest
unfolding find_macro_end
find_macro_end-balanced _ _ t rest braces i =
    matchchar-call b'{' b'}' t rest (omega arith) (omega arith) (omega arith) i
find_macro_end-balanced _ _ t rest parentheses i =
    matchchar-call b'(' b')' t rest (omega arith) (omega arith) (omega arith) i
find_macro_end-balanced _ _ t rest square i =
    matchchar-call b'[' b']' t rest (omega arith) (omega arith) (omega arith) i
