-- ===== src/Expr/Syntax.antt =====
-- Expressions as trees: their values, and their texts with as few parentheses as the levels of the
-- operators allow. Each token has a space before it.
use rpm.Base.{
  ℕ, suc, ◌≡◌, ◌≢◌, Bool, true, false, not, ◌||◌, some, [], ◌∷◌, ◌++◌, ltb, Bytes, All, is_digit,
  if◌then◌else◌,
}
use rpm.Version.Evr.{rpmver_parse}
use rpm.Expr.{
  Value, integer, text, version, Outcome, done, failed, next, of_option, Env, boolify, truth,
  negate_int, same_type, Level, relational, additive, multiplicative, is_operator, apply, Token,
  tok_add, tok_minus, tok_multiply, tok_divide, tok_eq, tok_neq, tok_lt, tok_le, tok_gt, tok_ge,
}
use rpm.Expr.Parser.{choose, short_circuits}

pub data Tree : Type 0 where
  number : Bytes → Tree
  quoted : Bytes → Tree
  quoted_version : Bytes → Tree
  minus : Tree → Tree
  inverse : Tree → Tree
  infix_op : Level → Token → Tree → Tree → Tree
  logical : Bool → Tree → Tree → Tree
  ternary : Tree → Tree → Tree → Tree

unfoldable pub minus_value : Value → Outcome Value
minus_value (integer i) = done (integer (negate_int i))
minus_value _ = failed

-- The value of `c ? a : b` for a condition that holds or not.
unfoldable pub select : Bool → Value → Value → Outcome Value
unfolding same_type
select cond v1 v2 = if same_type v1 v2 then done (if cond then v1 else v2) else failed

-- The value of a tree by the parser's own operators, which the proofs go over; Meaning says what it is
-- without them. Where it is discarded, the literals are empty, and * and / do nothing.
unfoldable pub eval : Env → Bool → Tree → Outcome Value
eval env d (number s) = done (integer (env.atoi (if d then [] else s)))
eval env d (quoted s) = done (text (if d then [] else s))
eval env d (quoted_version s) =
    next (of_option (rpmver_parse (some (if d then b'0' ∷ [] else s)))) (λ v. done (version v))
eval env d (minus a) = next (eval env d a) minus_value
eval env d (inverse a) = next (eval env d a) (λ v. done (truth (not (boolify v))))
eval env d (infix_op lv op a b) =
    next (eval env d a) (λ v1. next (eval env d b) (λ v2. apply lv d op v1 v2))
eval env d (logical is_and a b) =
    next (eval env d a)
      (λ v1. next (eval env (d || short_circuits env is_and v1) b) (λ v2. choose env is_and v1 v2))
eval env d (ternary c a b) = next (eval env d c) (λ v.
    next (eval env (d || not (boolify v)) a)
      (λ v1. next (eval env (d || boolify v) b) (λ v2. select (boolify v) v1 v2)))

unfoldable pub level : Level → ℕ
level relational = 2
level additive = 3
level multiplicative = 4

-- From 0 for the ternary operator to 5 for literals and the operators before their operand.
unfoldable pub precedence : Tree → ℕ
unfolding level
precedence (number s) = 5
precedence (quoted s) = 5
precedence (quoted_version s) = 5
precedence (minus a) = 5
precedence (inverse a) = 5
precedence (infix_op lv op a b) = level lv
precedence (logical is_and a b) = 1
precedence (ternary c a b) = 0

unfoldable pub operator_text : Token → Bytes
operator_text tok_add = 32 ∷ b'+' ∷ []
operator_text tok_minus = 32 ∷ b'-' ∷ []
operator_text tok_multiply = 32 ∷ b'*' ∷ []
operator_text tok_divide = 32 ∷ b'/' ∷ []
operator_text tok_eq = 32 ∷ b'=' ∷ b'=' ∷ []
operator_text tok_neq = 32 ∷ b'!' ∷ b'=' ∷ []
operator_text tok_lt = 32 ∷ b'<' ∷ []
operator_text tok_le = 32 ∷ b'<' ∷ b'=' ∷ []
operator_text tok_gt = 32 ∷ b'>' ∷ []
operator_text tok_ge = 32 ∷ b'>' ∷ b'=' ∷ []
operator_text _ = []

unfoldable pub logical_text : Bool → Bytes
logical_text true = 32 ∷ b'&' ∷ b'&' ∷ []
logical_text false = 32 ∷ b'|' ∷ b'|' ∷ []

-- In parentheses where `b` holds.
unfoldable pub wrap : Bool → Bytes → Bytes
wrap true s = 32 ∷ b'(' ∷ (s ++ 32 ∷ b')' ∷ [])
wrap false s = s

unfoldable pub print : Tree → Bytes
print (number s) = 32 ∷ s
print (quoted s) = 32 ∷ b'"' ∷ (s ++ b'"' ∷ [])
print (quoted_version s) = 32 ∷ b'v' ∷ b'"' ∷ (s ++ b'"' ∷ [])
print (minus a) = 32 ∷ b'-' ∷ wrap (ltb (precedence a) 5) (print a)
print (inverse a) = 32 ∷ b'!' ∷ wrap (ltb (precedence a) 5) (print a)
print (infix_op lv op a b) =
    wrap (ltb (precedence a) (level lv)) (print a)
    ++ (operator_text op ++ wrap (ltb (precedence b) (suc (level lv))) (print b))
print (logical is_and a b) =
    wrap (ltb (precedence a) 1) (print a)
    ++ (logical_text is_and ++ wrap (ltb (precedence b) 2) (print b))
print (ternary c a b) =
    wrap (ltb (precedence c) 1) (print c) ++ ((32 ∷ b'?' ∷ print a) ++ (32 ∷ b':' ∷ print b))

-- The text of a tree as an operand of the level `k`.
unfoldable pub print_at : ℕ → Tree → Bytes
unfolding wrap
print_at k e = wrap (ltb (precedence e) k) (print e)

-- The literals can be written, and each operator is one of its level.
abbrev pub IsWritable : Tree → Type 0
IsWritable (number s) = (s ≢ []) × All (λ c. is_digit c ≡ true) s
IsWritable (quoted s) = All (λ c. c ≢ b'"') s
IsWritable (quoted_version s) = (s ≢ []) × All (λ c. c ≢ b'"') s
IsWritable (minus a) = IsWritable a
IsWritable (inverse a) = IsWritable a
IsWritable (infix_op lv op a b) = (is_operator lv op ≡ true) × IsWritable a × IsWritable b
IsWritable (logical is_and a b) = IsWritable a × IsWritable b
IsWritable (ternary c a b) = IsWritable c × IsWritable a × IsWritable b
