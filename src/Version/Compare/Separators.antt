-- ===== src/Version/Compare/Separators.antt =====
-- What a tilde or a caret after a version does to its place in the order.
use rpm.Base.{
  ℕ, zero, suc, ◌<◌, ◌≡◌, inl, inr, refl, ap, Bool, true, false, not, Option, none, some, List, [],
  ◌∷◌, ◌++◌, Ordering, Bytes, length, take_while, drop_while, is_alpha, is_digit, arith,
  Option-cases,
}
use rpm.Version.Compare.{is_wanted, skip, rpmvercmp}
use rpm.Version.Compare.Tokens.{Token, tilde, caret, classify, compare_lists, compare_end}
use rpm.Version.Compare.Refines.{
  compare_lists_self, tokens, tokens_lem, next_token, next_token-length, rpmvercmp-tokens,
}

module _ (p : ℕ → Bool) (c : ℕ) (stops : p c ≡ false) where
  drop_while-append : (xs ys : Bytes) → drop_while p (xs ++ c ∷ ys) ≡ drop_while p xs ++ c ∷ ys
  drop_while-append [] ys = rw stops
  drop_while-append (x ∷ xs) ys = ground (arith, drop_while-append xs ys)

  take_while-append : (xs ys : Bytes) → take_while p (xs ++ c ∷ ys) ≡ take_while p xs
  take_while-append [] ys = rw stops
  take_while-append (x ∷ xs) ys = ground (arith, take_while-append xs ys)

-- A character that is a token by itself.
record IsSeparator (c : ℕ) (t : Token) : Type 0 where
  wanted : is_wanted c ≡ true
  digit : is_digit c ≡ false
  alpha : is_alpha c ≡ false
  token : (s : Bytes) → classify (c ∷ s) ≡ some (t, s)

tilde-IsSeparator : IsSeparator b'~' tilde
unfolding is_wanted classify
tilde-IsSeparator = record { wanted = refl; digit = refl; alpha = refl; token = λ s. refl }

caret-IsSeparator : IsSeparator b'^' caret
unfolding is_wanted classify
caret-IsSeparator = record { wanted = refl; digit = refl; alpha = refl; token = λ s. refl }

module _ (c : ℕ) (sep : Token) (is : IsSeparator c sep) (s : Bytes) where
  skip-append : (a : Bytes) → skip (a ++ c ∷ s) ≡ skip a ++ c ∷ s
  unfolding skip
  skip-append a = drop_while-append (λ x. not (is_wanted x)) c (rw is.wanted) a s

  -- The first token of `a` with the separator and `s` behind it.
  abbrev behind : Option (Token × Bytes) → Option (Token × Bytes)
  behind none = some (sep, s)
  behind (some (t, rest)) = some (t, rest ++ c ∷ s)

  classify-append : (a : Bytes) → classify (a ++ c ∷ s) ≡ behind (classify a)
  unfolding classify
  classify-append [] = is.token s
  classify-append (x ∷ a) = ground (
    arith,
    drop_while-append is_digit c is.digit a s,
    drop_while-append is_alpha c is.alpha a s,
    take_while-append is_digit c is.digit a s,
    take_while-append is_alpha c is.alpha a s,
  )

  next_token-append : (a : Bytes) → next_token (a ++ c ∷ s) ≡ behind (next_token a)
  unfolding next_token
  next_token-append a = rw (skip-append a) (classify-append (skip a))

  tokens-append_within :
      (n : ℕ) (a : Bytes) → length a < n → tokens (a ++ c ∷ s) ≡ tokens a ++ sep ∷ tokens s
  tokens-append_within zero a h = elim h [ ]
  tokens-append_within (suc n) a h = elim (Option-cases (next_token a)) [
    | inl e ↦ rw (tokens_lem (a ++ c ∷ s), next_token-append a, tokens_lem a, e)
    | inr ((t, rest), e) ↦
        let shorter = next_token-length a e in
        rw (tokens_lem (a ++ c ∷ s), next_token-append a, tokens_lem a, e)
          (ap (◌∷◌ t) (tokens-append_within n rest (omega arith)))
  ]

  tokens-append : (a : Bytes) → tokens (a ++ c ∷ s) ≡ tokens a ++ sep ∷ tokens s
  tokens-append a = tokens-append_within (suc (length a)) a (omega arith)

compare_lists-append :
    (ts : List Token) (t : Token) (us : List Token)
    → compare_lists (ts ++ t ∷ us) ts ≡ compare_lists (t ∷ us) []
unfolding compare_lists
compare_lists-append [] t us = refl
compare_lists-append (u ∷ ts) t us =
    ground (arith, compare_lists_self (u ∷ []), compare_lists-append ts t us)

-- A tilde and what follows it make a version older than without them, and a caret newer.
pub rpmvercmp_separator :
    (a s : Bytes)
    → (rpmvercmp (a ++ b'~' ∷ s) a ≡ Ordering.lt) × (rpmvercmp (a ++ b'^' ∷ s) a ≡ Ordering.gt)
unfolding compare_lists compare_end
rpmvercmp_separator a s = (
  rw ((rpmvercmp-tokens (a ++ b'~' ∷ s) a).1, tokens-append b'~' tilde tilde-IsSeparator s a)
      (compare_lists-append (tokens a) tilde (tokens s)),
  rw ((rpmvercmp-tokens (a ++ b'^' ∷ s) a).1, tokens-append b'^' caret caret-IsSeparator s a)
      (compare_lists-append (tokens a) caret (tokens s)),
)
