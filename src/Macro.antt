-- ===== src/Macro.antt =====
-- rpmio/macro.cc: where a macro call ends (`matchchar` and `findMacroEnd`), which the expressions use.
-- A pointer into a text is what is left of the text from there on.
pub mod Overrun
pub mod Balanced
pub mod Table
mod Examples
use rpm.Base.{
  ℕ, zero, suc, ◌+◌, ◌-◌, Bool, true, false, ◌&&◌, ◌||◌, [], ◌∷◌, ◌==◌, leb, Bytes, drop_while,
  is_alnum, if◌then◌else◌,
}

-- What the search for a bracket comes to; `overrun` is a read behind the end of the text.
pub data Match : Type 0 where
  found : Bytes → Match
  unmatched : Match
  overrun : Match

-- `matchchar`, inside of `lvl` brackets. A backslash (92) skips a character, also the NUL at the end.
unfoldable pub matchchar : ℕ → ℕ → ℕ → Bytes → Match
matchchar pl pr lvl [] = unmatched
matchchar pl pr lvl (c ∷ []) =
    if c == 92 then overrun else if c == pr && leb lvl 1 then found [] else unmatched
matchchar pl pr lvl (c ∷ x ∷ p) = elim (c == 92) [
  | true ↦ matchchar pl pr lvl p
  | false ↦ elim (c == pr) [
    | true ↦ elim (leb lvl 1) [ true ↦ found (x ∷ p) | false ↦ matchchar pl pr (lvl - 1) (x ∷ p) ]
    | false ↦ matchchar pl pr (if c == pl then lvl + 1 else lvl) (x ∷ p)
  ]
]

unfoldable pub is_name_char : ℕ → Bool
unfolding is_alnum
is_name_char c = is_alnum c || c == b'_'

unfoldable pub skip_dash : Bytes → Bytes
skip_dash [] = []
skip_dash (c ∷ p) = if c == b'-' then p else c ∷ p

-- The stars and the number sign behind a name.
unfoldable pub skip_suffix : Bytes → Bytes
skip_suffix [] = []
skip_suffix (c ∷ []) = if c == b'*' || c == b'#' then [] else c ∷ []
skip_suffix (c ∷ x ∷ p) =
    if c == b'*' && x == b'*' then p else if c == b'*' || c == b'#' then x ∷ p else c ∷ x ∷ p

-- The end of a macro call that is not in brackets.
unfoldable pub name_end : Bytes → Bytes
unfolding skip_suffix skip_dash is_name_char
name_end str =
    skip_suffix (drop_while is_name_char (skip_dash (drop_while (λ c. c == b'?' || c == b'!') str)))

-- `findMacroEnd`
unfoldable pub find_macro_end : Bytes → Match
unfolding name_end
find_macro_end [] = found []
find_macro_end (c ∷ p) =
    if c == b'('
    then matchchar c b')' 0 (c ∷ p)
    else if c == b'{'
    then matchchar c b'}' 0 (c ∷ p)
    else if c == b'['
    then matchchar c b']' 0 (c ∷ p)
    else found (name_end (c ∷ p))
