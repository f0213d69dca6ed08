-- ===== src/Macro/Examples.antt =====
-- Calls in brackets, and texts with a backslash.
use rpm.Base.{◌≡◌, refl, [], ◌∷◌, ◌++◌, Bytes, codes, arith, if◌then◌else◌}
use rpm.Macro.{matchchar, found, unmatched, overrun, find_macro_end}
use rpm.Macro.Balanced.{empty, plain, nested, braces, find_macro_end-balanced}
use rpm.Macro.Overrun.{ends_escaped, matchchar-unclosed}

-- {a{}} behind a percent sign.
find_macro_end-balanced_example :
    find_macro_end (b'{' ∷ ((b'a' ∷ b'{' ∷ ([] ++ b'}' ∷ [])) ++ b'}' ∷ codes " b"))
    ≡ found (codes " b")
find_macro_end-balanced_example =
    find_macro_end-balanced b'{' b'}' (b'a' ∷ b'{' ∷ ([] ++ b'}' ∷ [])) (codes " b") braces (
      plain b'a' (b'{' ∷ ([] ++ b'}' ∷ [])) (omega arith) (omega arith) (omega arith)
        (nested [] [] empty empty))

abbrev trailing : Bytes
trailing = b'{' ∷ b'a' ∷ 92 ∷ []

matchchar-unclosed_example :
    matchchar b'{' b'}' 0 trailing ≡ (if ends_escaped trailing then overrun else unmatched)
matchchar-unclosed_example =
    matchchar-unclosed b'{' b'}' 0 trailing (omega arith, (omega arith, (omega arith, tt)))

-- The call in `%{a\\` is looked for behind the end of the text.
trailing-overrun : find_macro_end trailing ≡ overrun
unfolding find_macro_end matchchar
trailing-overrun = refl
