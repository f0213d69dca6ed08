-- ===== src/Version/Compare/Order.antt =====
-- The order of token lists is total, and so is that of version strings.
use rpm.Base.{
  ◌≡◌, ◌≢◌, refl, ap, List, [], ◌∷◌, Ordering, Bytes, length, strcmp-flip, eq_of_strcmp,
  strcmp_trans, flip, and_then-flip, compare-flip, arith, and_then,
}
use rpm.Version.Compare.{compare_digits, rpmvercmp}
use rpm.Version.Compare.Tokens.{
  Token, tilde, caret, word, number, compare_tokens, compare_lists, compare_end,
}
use rpm.Version.Compare.Refines.{tokens, rpmvercmp-tokens}

compare_digits-flip : (s t : Bytes) → compare_digits t s ≡ flip (compare_digits s t)
unfolding compare_digits
compare_digits-flip s t = ground (arith, strcmp-flip s t, compare-flip (length s) (length t))

eq_of_compare_digits : (s t : Bytes) → compare_digits s t ≡ Ordering.eq → s ≡ t
unfolding compare_digits
eq_of_compare_digits s t h = ground (arith, eq_of_strcmp s t)

compare_digits_trans :
    (s t u : Bytes)
    → compare_digits s t ≡ Ordering.lt
    → compare_digits t u ≡ Ordering.lt
    → compare_digits s u ≡ Ordering.lt
unfolding compare_digits
compare_digits_trans s t u h k = ground (arith, strcmp_trans s t u)

compare_tokens-flip : (t u : Token) → compare_tokens u t ≡ flip (compare_tokens t u)
unfolding compare_tokens
compare_tokens-flip (word s) (word t) = strcmp-flip s t
compare_tokens-flip (number s) (number t) = compare_digits-flip s t
compare_tokens-flip tilde tilde = refl
compare_tokens-flip tilde caret = refl
compare_tokens-flip tilde (word t) = refl
compare_tokens-flip tilde (number t) = refl
compare_tokens-flip caret tilde = refl
compare_tokens-flip caret caret = refl
compare_tokens-flip caret (word t) = refl
compare_tokens-flip caret (number t) = refl
compare_tokens-flip (word s) _ = refl
compare_tokens-flip (number s) _ = refl

eq_of_compare_tokens : (t u : Token) → compare_tokens t u ≡ Ordering.eq → t ≡ u
unfolding compare_tokens
eq_of_compare_tokens tilde tilde h = refl
eq_of_compare_tokens caret caret h = refl
eq_of_compare_tokens (word s) (word t) h = ap word (eq_of_strcmp s t h)
eq_of_compare_tokens (number s) (number t) h = ap number (eq_of_compare_digits s t h)
eq_of_compare_tokens tilde _ h = cc
eq_of_compare_tokens caret _ h = cc
eq_of_compare_tokens (word s) _ h = cc
eq_of_compare_tokens (number s) _ h = cc

compare_tokens_trans :
    (t u v : Token)
    → compare_tokens t u ≡ Ordering.lt
    → compare_tokens u v ≡ Ordering.lt
    → compare_tokens t v ≡ Ordering.lt
unfolding compare_tokens
compare_tokens_trans (word s) (word t) (word u) h k = strcmp_trans s t u h k
compare_tokens_trans (number s) (number t) (number u) h k = compare_digits_trans s t u h k
compare_tokens_trans t u v h k = ground arith

compare_end_trans :
    (t u : Token)
    → compare_tokens t u ≡ Ordering.lt
    → (compare_end t ≡ Ordering.lt → compare_end u ≡ Ordering.lt)
      × (compare_end u ≡ Ordering.gt → compare_end t ≡ Ordering.gt)
unfolding compare_end compare_tokens
compare_end_trans tilde u h = ground arith
compare_end_trans caret u h = ground arith
compare_end_trans (word s) u h = ground arith
compare_end_trans (number s) u h = ground arith

compare_end_between :
    (t u : Token)
    → compare_end t ≡ Ordering.gt
    → compare_end u ≡ Ordering.lt
    → compare_tokens t u ≡ Ordering.lt
unfolding compare_end compare_tokens
compare_end_between tilde u h k = ground arith
compare_end_between _ u h k = cc

compare_lists-flip : (ts us : List Token) → compare_lists us ts ≡ flip (compare_lists ts us)
unfolding compare_lists compare_end
compare_lists-flip [] [] = refl
compare_lists-flip [] (u ∷ us) = ground arith
compare_lists-flip (t ∷ ts) [] = ground arith
compare_lists-flip (t ∷ ts) (u ∷ us) = ground (
  arith,
  compare_tokens-flip t u,
  compare_lists-flip ts us,
  and_then-flip (compare_tokens t u) (compare_lists ts us),
)

eq_of_compare_lists : (ts us : List Token) → compare_lists ts us ≡ Ordering.eq → ts ≡ us
unfolding compare_lists compare_end
eq_of_compare_lists [] [] h = refl
eq_of_compare_lists [] (u ∷ us) h = ground arith
eq_of_compare_lists (t ∷ ts) [] h = ground arith
eq_of_compare_lists (t ∷ ts) (u ∷ us) h =
    ground (arith, eq_of_compare_tokens t u, eq_of_compare_lists ts us)

compare_lists_trans :
    (ts us vs : List Token)
    → compare_lists ts us ≡ Ordering.lt
    → compare_lists us vs ≡ Ordering.lt
    → compare_lists ts vs ≡ Ordering.lt
unfolding compare_lists
compare_lists_trans [] [] vs h k = cc
compare_lists_trans [] (u ∷ us) [] h k = ground arith
compare_lists_trans [] (u ∷ us) (v ∷ vs) h k =
    ground (arith, compare_end_trans u v, eq_of_compare_tokens u v)
compare_lists_trans (t ∷ ts) [] [] h k = cc
compare_lists_trans (t ∷ ts) [] (v ∷ vs) h k = ground (arith, compare_end_between t v)
compare_lists_trans (t ∷ ts) (u ∷ us) [] h k =
    ground (arith, compare_end_trans t u, eq_of_compare_tokens t u)
compare_lists_trans (t ∷ ts) (u ∷ us) (v ∷ vs) h k = ground (
  arith,
  compare_tokens_trans t u v,
  eq_of_compare_tokens t u,
  eq_of_compare_tokens u v,
  compare_lists_trans ts us vs,
)

-- Exchanging the two versions negates the result.
pub rpmvercmp-flip : (a b : Bytes) → rpmvercmp b a ≡ flip (rpmvercmp a b)
rpmvercmp-flip a b =
    rw ((rpmvercmp-tokens b a).1, (rpmvercmp-tokens a b).1)
      (compare_lists-flip (tokens a) (tokens b))

compare_lists_eq_trans :
    (ts us vs : List Token)
    → compare_lists ts us ≢ Ordering.gt
    → compare_lists us vs ≢ Ordering.gt
    → compare_lists ts vs ≡ Ordering.eq
    → (compare_lists ts us ≡ Ordering.eq) × (compare_lists us vs ≡ Ordering.eq)
compare_lists_eq_trans ts us vs h k e =
    ground (arith, eq_of_compare_lists ts vs, compare_lists-flip ts us, compare_lists-flip us ts)

compare_lists_le_trans :
    (ts us vs : List Token)
    → compare_lists ts us ≢ Ordering.gt
    → compare_lists us vs ≢ Ordering.gt
    → compare_lists ts vs ≢ Ordering.gt
compare_lists_le_trans ts us vs h k =
    ground
      (arith, compare_lists_trans ts us vs, eq_of_compare_lists ts us, eq_of_compare_lists us vs)

-- What holds of the comparisons of `a` with `b`, `b` with `c` and `a` with `c` in a total order.
abbrev pub Chain : Ordering → Ordering → Ordering → Type 0
Chain o p q =
    (o ≢ Ordering.gt
      → p ≢ Ordering.gt
      → (q ≢ Ordering.gt) × (q ≡ Ordering.eq → (o ≡ Ordering.eq) × (p ≡ Ordering.eq)))
    × (o ≡ Ordering.eq → p ≡ Ordering.eq → q ≡ Ordering.eq)

pub and_then-Chain :
    (o p q o' p' q' : Ordering)
    → Chain o p q
    → Chain o' p' q'
    → Chain (and_then o o') (and_then p p') (and_then q q')
and_then-Chain o p q o' p' q' h k = (λ a b. ground arith, λ a b. ground arith)

compare_lists_le_eq :
    (ts us vs : List Token)
    → compare_lists ts us ≡ Ordering.eq
    → compare_lists us vs ≡ Ordering.eq
    → compare_lists ts vs ≡ Ordering.eq
compare_lists_le_eq ts us vs h k = rw (eq_of_compare_lists ts us h) k

-- If `a` is no newer than `b` and `b` no newer than `c`, then `a` is no newer than `c`, and `a`
-- and `c` compare as equal only if all three do. Being equal is transitive.
pub rpmvercmp_trans : (a b c : Bytes) → Chain (rpmvercmp a b) (rpmvercmp b c) (rpmvercmp a c)
rpmvercmp_trans a b c =
    rw ((rpmvercmp-tokens a b).1, (rpmvercmp-tokens b c).1, (rpmvercmp-tokens a c).1)
      (
        λ h k. (
          compare_lists_le_trans (tokens a) (tokens b) (tokens c) h k,
          compare_lists_eq_trans (tokens a) (tokens b) (tokens c) h k,
        ),
        compare_lists_le_eq (tokens a) (tokens b) (tokens c),
      )
