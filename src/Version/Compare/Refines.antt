-- ===== src/Version/Compare/Refines.antt =====
-- `rpmvercmp` computes the lexicographic order of token lists, and its fuel is enough.
use rpm.Base.{
  ℕ, zero, suc, ◌≤◌, ◌<◌, ◌≡◌, refl, ap, sym, inl, inr, not, Option, none, some, List, [], ◌∷◌,
  Ordering, Bytes, length, length-drop_while, is_alpha, is_digit, eq_of_strcmp, strcmp_self, arith,
  Option-cases,
}
use rpm.Version.Compare.{
  is_wanted, skip, Round, ret, again, leave, round, go_on, loop, left_over, rpmvercmp,
  rpmvercmp_fuel,
}
use rpm.Version.Compare.Tokens.{
  Token, tilde, caret, word, number, classify, compare_tokens, compare_lists, token_round, outcome,
  Wanted, skip-Wanted, wanted_round-token_round,
}

unfoldable pub next_token : Bytes → Option (Token × Bytes)
unfolding classify skip
next_token s = classify (skip s)

tokens_within : ℕ → Bytes → List Token
tokens_within zero s = []
tokens_within (suc fuel) s = elim (next_token s) [
  | none ↦ []
  | some (t, rest) ↦ t ∷ tokens_within fuel rest
]

-- The tokens of a version string. Each takes a character, so its length is enough fuel.
pub tokens : Bytes → List Token
unfolding tokens_within next_token
tokens s = tokens_within (length s) s

classify-Wanted :
    (s : Bytes) {t : Token} {rest : Bytes}
    → Wanted s
    → classify s ≡ some (t, rest)
    → length rest < length s
unfolding classify is_wanted
classify-Wanted [] w h = cc
classify-Wanted (c ∷ s) w h =
    ground (arith, length-drop_while is_digit s, length-drop_while is_alpha s)

-- Every token takes at least one character.
pub next_token-length :
    (s : Bytes) {t : Token} {rest : Bytes} → next_token s ≡ some (t, rest) → length rest < length s
unfolding next_token skip
next_token-length s h = omega (
  arith,
  classify-Wanted (skip s) (skip-Wanted s) h,
  length-drop_while (λ c. not (is_wanted c)) s,
)

tokens_within_nil : (fuel : ℕ) → tokens_within fuel [] ≡ []
unfolding tokens_within next_token
tokens_within_nil zero = refl
tokens_within_nil (suc fuel) = refl

tokens_within_enough :
    (f g : ℕ) (s : Bytes) → length s ≤ f → length s ≤ g → tokens_within f s ≡ tokens_within g s
unfolding tokens_within
tokens_within_enough zero zero s p q = refl
tokens_within_enough zero (suc g) [] p q = sym (tokens_within_nil (suc g))
tokens_within_enough zero (suc g) (c ∷ s) p q = elim p [ ]
tokens_within_enough (suc f) zero [] p q = tokens_within_nil (suc f)
tokens_within_enough (suc f) zero (c ∷ s) p q = elim q [ ]
tokens_within_enough (suc f) (suc g) s p q = elim (Option-cases (next_token s)) [
  | inl e ↦ rw (e, tokens_within)
  | inr ((t, rest), e) ↦
      let shorter = next_token-length s e in
      rw (e, tokens_within) (ap (◌∷◌ t) (tokens_within_enough f g rest (omega arith) (omega arith)))
]

pub tokens_nil : tokens [] ≡ []
unfolding tokens
tokens_nil = refl

abbrev pub tokens_from : Option (Token × Bytes) → List Token
tokens_from none = []
tokens_from (some (t, rest)) = t ∷ tokens rest

-- The tokens of a text are its first token and those of what follows.
pub tokens_lem : (s : Bytes) → tokens s ≡ tokens_from (next_token s)
tokens_lem [] = unfold tokens in refl
tokens_lem (c ∷ s) = elim (Option-cases (next_token (c ∷ s))) [
  | inl e ↦ rw e (unfold tokens in rw (e, tokens_within))
  | inr ((t, rest), e) ↦
      let shorter : length rest ≤ length s = omega (arith, next_token-length (c ∷ s) e) in
      let enough = tokens_within_enough (length s) (length rest) rest shorter (omega arith) in
      rw e (unfold tokens in rw (e, tokens_within) (ap (◌∷◌ t) enough))
]

go_on-outcome :
    (rest : Bytes → Bytes → Option Ordering) (r : Round) → go_on rest (outcome r) ≡ go_on rest r
unfolding go_on
go_on-outcome rest (ret o) = refl
go_on-outcome rest (leave one two) = refl
go_on-outcome rest (again one two) = refl

round-token_round : (a b : Bytes) → outcome (round a b) ≡ token_round (next_token a) (next_token b)
unfolding round next_token
round-token_round a b = wanted_round-token_round (skip a) (skip b) (skip-Wanted a) (skip-Wanted b)

abbrev compare_from : Option (Token × Bytes) → Option (Token × Bytes) → Ordering
compare_from x y = compare_lists (tokens_from x) (tokens_from y)

-- What a round leads to, if the loop is right on what the first tokens leave.
go_on-token_round :
    (rest : Bytes → Bytes → Option Ordering) (x y : Option (Token × Bytes))
    → ((t u : Token) (one two : Bytes)
        → x ≡ some (t, one)
        → y ≡ some (u, two)
        → rest one two ≡ some (compare_lists (tokens one) (tokens two)))
    → go_on rest (token_round x y) ≡ some (compare_from x y)
unfolding go_on token_round compare_lists
go_on-token_round rest none none ih = refl
go_on-token_round rest none (some (u, two)) ih = refl
go_on-token_round rest (some (t, one)) none ih = refl
go_on-token_round rest (some (t, one)) (some (u, two)) ih = ground (arith, ih t u one two refl refl)

go_on-round :
    (rest : Bytes → Bytes → Option Ordering) (a b : Bytes)
    → ((one two : Bytes)
        → length one < length a
        → rest one two ≡ some (compare_lists (tokens one) (tokens two)))
    → go_on rest (round a b) ≡ some (compare_lists (tokens a) (tokens b))
go_on-round rest a b ih =
    rw (tokens_lem a, tokens_lem b, ← go_on-outcome rest (round a b), round-token_round a b)
      (go_on-token_round rest (next_token a) (next_token b)
        (λ t u one two x y. ih one two (next_token-length a x)))

-- With more fuel than the first text has characters the loop ends, with the order of the tokens.
pub loop_enough :
    (fuel : ℕ) (a b : Bytes)
    → length a < fuel
    → loop fuel a b ≡ some (compare_lists (tokens a) (tokens b))
unfolding loop
loop_enough zero a b h = elim h [ ]
loop_enough (suc fuel) [] [] h = unfold left_over tokens tokens_within compare_lists in refl
loop_enough (suc fuel) (c ∷ a) b h =
    go_on-round (loop fuel) (c ∷ a) b (λ one two p. loop_enough fuel one two (omega arith))
loop_enough (suc fuel) [] (d ∷ b) h =
    go_on-round (loop fuel) [] (d ∷ b) (λ one two p. loop_enough fuel one two (omega arith))

pub compare_lists_self : (ts : List Token) → compare_lists ts ts ≡ Ordering.eq
unfolding compare_lists compare_tokens
compare_lists_self [] = refl
compare_lists_self (tilde ∷ ts) = compare_lists_self ts
compare_lists_self (caret ∷ ts) = compare_lists_self ts
compare_lists_self (word s ∷ ts) = rw (strcmp_self s) (compare_lists_self ts)
compare_lists_self (number s ∷ ts) = ground (arith, strcmp_self s, compare_lists_self ts)

rpmvercmp_fuel-tokens :
    (a b : Bytes) → rpmvercmp_fuel a b ≡ some (compare_lists (tokens a) (tokens b))
unfolding rpmvercmp_fuel
rpmvercmp_fuel-tokens a b = ground (
  arith,
  eq_of_strcmp a b,
  compare_lists_self (tokens a),
  loop_enough (suc (length a)) a b (omega arith),
)

-- The comparison ends on all pairs of strings, and its result is the lexicographic order of their
-- tokens: a tilde before the end of a version, the end before a caret, a caret before a word, a
-- word before a number, words by `strcmp`, and numbers by length and digits without leading zeros.
pub rpmvercmp-tokens :
    (a b : Bytes)
    → (rpmvercmp_fuel a b ≡ some (rpmvercmp a b))
      × (rpmvercmp a b ≡ compare_lists (tokens a) (tokens b))
unfolding rpmvercmp
rpmvercmp-tokens a b = ground (arith, rpmvercmp_fuel-tokens a b)
