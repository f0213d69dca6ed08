-- ===== src/Macro/Overrun.antt =====
-- `matchchar` of rpmio/macro.cc at a backslash before the end of the text.
use rpm.Base.{
  ℕ, ◌+◌, ◌-◌, ◌≡◌, ◌≢◌, refl, Bool, true, false, [], ◌∷◌, ◌==◌, leb, Bytes, All, arith,
  if◌then◌else◌, Bool-cases, inl, inr,
}
use rpm.Macro.{unmatched, overrun, matchchar}

-- The last character is a backslash that is not itself skipped.
unfoldable pub ends_escaped : Bytes → Bool
ends_escaped [] = false
ends_escaped (c ∷ []) = c == 92
ends_escaped (c ∷ x ∷ p) = elim (c == 92) [ true ↦ ends_escaped p | false ↦ ends_escaped (x ∷ p) ]

-- The search leaves the text only where the text ends in a backslash that is not skipped.
matchchar-ends_escaped :
    (pl pr lvl : ℕ) (s : Bytes) → ends_escaped s ≡ false → matchchar pl pr lvl s ≢ overrun
unfolding matchchar ends_escaped
matchchar-ends_escaped pl pr lvl [] h = λ e. ground arith
matchchar-ends_escaped pl pr lvl (c ∷ []) h = λ e. ground arith
matchchar-ends_escaped pl pr lvl (c ∷ x ∷ p) h = elim (Bool-cases (c == 92)) [
  | inl e ↦ rw (matchchar, e) (matchchar-ends_escaped pl pr lvl p (rw (ends_escaped, e) at h))
  | inr e ↦
      let h' = rw (ends_escaped, e) at h in
      elim (Bool-cases (c == pr)) [
        | inl k ↦ elim (Bool-cases (leb lvl 1)) [
          | inl n ↦ rw (matchchar, e, k, n) (λ q. ground arith)
          | inr n ↦ rw (matchchar, e, k, n) (matchchar-ends_escaped pl pr (lvl - 1) (x ∷ p) h')
        ]
        | inr k ↦
            rw (matchchar, e, k)
              (matchchar-ends_escaped pl pr (if c == pl then lvl + 1 else lvl) (x ∷ p) h')
      ]
]

-- Without a closing bracket, the search ends at the end of the text, or behind it if the text ends in a
-- backslash that is not skipped.
pub matchchar-unclosed :
    (pl pr lvl : ℕ) (s : Bytes)
    → All (λ c. c ≢ pr) s
    → matchchar pl pr lvl s ≡ (if ends_escaped s then overrun else unmatched)
unfolding matchchar ends_escaped
matchchar-unclosed pl pr lvl [] a = refl
matchchar-unclosed pl pr lvl (c ∷ []) a = ground (arith, a)
matchchar-unclosed pl pr lvl (c ∷ x ∷ p) (n, (m, a)) = elim (Bool-cases (c == 92)) [
  | inl e ↦ rw (matchchar, ends_escaped, e) (matchchar-unclosed pl pr lvl p a)
  | inr e ↦
      let k : (c == pr) ≡ false = ground (arith, n) in
      rw (matchchar, ends_escaped, e, k)
        (matchchar-unclosed pl pr (if c == pl then lvl + 1 else lvl) (x ∷ p) (m, a))
]
