-- ===== src/Version/Compare/Tokens.antt =====
-- An independent description of the order: a version string is read as a list of tokens, and the
-- lists are compared lexicographically. `rpmvercmp` computes this order.
use rpm.Base.{
  ◌≡◌, refl, inl, inr, true, Option, none, some, List, [], ◌∷◌, Ordering, ◌==◌, if◌then◌else◌,
  Bytes, take_while, drop_while, is_alpha, is_digit, strcmp, and_then, arith, Bool-cases,
}
use rpm.Version.Compare.{
  is_wanted, skip, Round, ret, again, leave, wanted_round, strip_zeros, compare_digits, left_over,
}

-- A number is kept without its leading zeros.
pub data Token : Type 0 where
  tilde caret : Token
  word : Bytes → Token
  number : Bytes → Token

-- A tilde sorts before the end of a version, the end before a caret, a caret before a word, and a
-- word before a number. Here without the end.
unfoldable pub compare_tokens : Token → Token → Ordering
unfolding compare_digits
compare_tokens tilde tilde = Ordering.eq
compare_tokens tilde _ = Ordering.lt
compare_tokens caret tilde = Ordering.gt
compare_tokens caret caret = Ordering.eq
compare_tokens caret _ = Ordering.lt
compare_tokens (word s) (word t) = strcmp s t
compare_tokens (word s) (number t) = Ordering.lt
compare_tokens (word s) _ = Ordering.gt
compare_tokens (number s) (number t) = compare_digits s t
compare_tokens (number s) _ = Ordering.gt

-- The end of a version against a token.
unfoldable pub compare_end : Token → Ordering
compare_end tilde = Ordering.gt
compare_end _ = Ordering.lt

unfoldable pub compare_lists : List Token → List Token → Ordering
unfolding compare_tokens compare_end
compare_lists [] [] = Ordering.eq
compare_lists [] (u ∷ us) = compare_end u
compare_lists (t ∷ ts) [] = elim (compare_end t) [ Ordering.gt ↦ Ordering.lt | _ ↦ Ordering.gt ]
compare_lists (t ∷ ts) (u ∷ us) = and_then (compare_tokens t u) (compare_lists ts us)

-- The first token of a text, and what follows it.
unfoldable pub classify : Bytes → Option (Token × Bytes)
unfolding strip_zeros
classify [] = none
classify (c ∷ s) =
    if c == b'~'
    then some (tilde, s)
    else if c == b'^'
    then some (caret, s)
    else if is_digit c
    then some (number (strip_zeros (take_while is_digit (c ∷ s))), drop_while is_digit (c ∷ s))
    else some (word (take_while is_alpha (c ∷ s)), drop_while is_alpha (c ∷ s))

-- The round of the loop, from the first tokens of both texts.
unfoldable pub token_round : Option (Token × Bytes) → Option (Token × Bytes) → Round
token_round none none = ret Ordering.eq
token_round none (some (u, two)) = ret (compare_lists [] (u ∷ []))
token_round (some (t, one)) none = ret (compare_lists (t ∷ []) [])
token_round (some (t, one)) (some (u, two)) = elim (compare_tokens t u) [
  | Ordering.lt ↦ ret Ordering.lt
  | Ordering.gt ↦ ret Ordering.gt
  | Ordering.eq ↦ again one two
]

-- The cursor stands on a wanted character, or at the end.
abbrev pub Wanted : Bytes → Type 0
Wanted [] = Unit
Wanted (c ∷ s) = is_wanted c ≡ true

pub skip-Wanted : (s : Bytes) → Wanted (skip s)
unfolding skip
skip-Wanted [] = tt
skip-Wanted (c ∷ s) = elim (Bool-cases (is_wanted c)) [
  | inl w ↦ rw w w
  | inr w ↦ rw w (skip-Wanted s)
]

-- `leave` with nothing left and `ret eq` both end with 0.
abbrev pub outcome : Round → Round
outcome (leave one two) = ret (left_over one two)
outcome r = r

pub wanted_round-token_round :
    (one two : Bytes)
    → Wanted one
    → Wanted two
    → outcome (wanted_round one two) ≡ token_round (classify one) (classify two)
unfolding wanted_round is_wanted classify token_round compare_lists left_over
wanted_round-token_round [] [] p q = refl
wanted_round-token_round [] (d ∷ two) p q = ground arith
wanted_round-token_round (c ∷ one) [] p q = ground arith
wanted_round-token_round (c ∷ one) (d ∷ two) p q = ground arith
