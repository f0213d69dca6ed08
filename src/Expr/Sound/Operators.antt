-- ===== src/Expr/Sound/Operators.antt =====
-- The trees with operands, one operator after the other.
use rpm.Base.{
  suc, ◌≤◌, ◌≡◌, refl, ap, Bool, true, false, ◌||◌, none, some, ◌∷◌, ◌++◌, append_assoc, length,
  Bytes, arith,
}
use rpm.Expr.{
  next, Env, Level, relational, additive, multiplicative, is_operator, apply, Token, tok_minus,
  tok_not, tok_add, tok_multiply, tok_divide, tok_eq, tok_neq, tok_lt, tok_le, tok_gt, tok_ge,
  tok_logical_and, tok_logical_or,
}
use rpm.Expr.Parser.{logical_operator, choose, short_circuits}
use rpm.Expr.Gives.{token_level, token_level-operator}
use rpm.Expr.Reading.{Follows, operator-Follows, and-Follows, or-Follows, read_minus, read_not}
use rpm.Expr.Reads.{loop_level}
use rpm.Expr.Steps.{infix-Round, logical-Round, Round-LoopReads}
use rpm.Expr.Operands.{minus-Reads, inverse-Reads, ternary-Reads}
use rpm.Expr.Literals.{number-IsLiteral, quoted-IsLiteral, quoted_version-IsLiteral}
use rpm.Expr.Syntax.{
  Tree, number, quoted, quoted_version, minus, inverse, infix_op, logical, ternary, eval, level,
  precedence, operator_text, logical_text, print, print_at, IsWritable,
}
use rpm.Expr.Sound.{
  IsLiteral-Sound, Sound, Sound-LoopReads, Sound-Opens, append-Opens, level-bounds,
  loop_level-injective, loop_level_pos, looped-Sound, prefix-Opens, print-Reads, print_at-Reads,
  unlooped,
}

minus-Sound : (env : Env) (a : Tree) → Sound env a → Sound env (minus a)
unfolding print eval print_at precedence
minus-Sound env a h = record {
  opens =
      prefix-Opens env b'-' tok_minus (print_at 5 a) (λ d p. read_minus env d (print_at 5 a ++ p));
  own =
      minus-Reads env (print_at 5 a) (λ d. eval env d a) (Sound-Opens env 5 a h)
        (print_at-Reads env 5 a (omega arith) h);
  looped = unlooped env (minus a) refl;
}

inverse-Sound : (env : Env) (a : Tree) → Sound env a → Sound env (inverse a)
unfolding print eval print_at precedence
inverse-Sound env a h =
    let (y, e) = (Sound-Opens env 5 a h).blank in
    record {
      opens = prefix-Opens env b'!' tok_not (print_at 5 a) (λ d p. rw e (read_not env d (y ++ p)));
      own =
          inverse-Reads env (print_at 5 a) (λ d. eval env d a) (Sound-Opens env 5 a h)
            (print_at-Reads env 5 a (omega arith) h);
      looped = unlooped env (inverse a) refl;
    }

operator_text-length :
    (lv : Level) (op : Token) → is_operator lv op ≡ true → 2 ≤ length (operator_text op)
unfolding operator_text is_operator
operator_text-length relational tok_eq h = omega arith
operator_text-length relational tok_neq h = omega arith
operator_text-length relational tok_lt h = omega arith
operator_text-length relational tok_le h = omega arith
operator_text-length relational tok_gt h = omega arith
operator_text-length relational tok_ge h = omega arith
operator_text-length relational _ h = absurd (ground arith)
operator_text-length additive tok_add h = omega arith
operator_text-length additive tok_minus h = omega arith
operator_text-length additive _ h = absurd (ground arith)
operator_text-length multiplicative tok_multiply h = omega arith
operator_text-length multiplicative tok_divide h = omega arith
operator_text-length multiplicative _ h = absurd (ground arith)

infix-Sound :
    (env : Env) (lv : Level) (op : Token) (a b : Tree)
    → is_operator lv op ≡ true
    → Sound env a
    → Sound env b
    → Sound env (infix_op lv op a b)
unfolding print eval print_at precedence loop_level
infix-Sound env lv op a b is h g =
    let t = print_at (suc (level lv)) b in
    let t_op = Sound-Opens env (suc (level lv)) b g in
    let fo : (rest : Bytes) → Follows env (operator_text op ++ (t ++ rest)) op (t ++ rest) = λ rest.
      operator-Follows env lv op (t ++ rest) (t_op.blank.0 ++ rest) is
        (ap (λ z. z ++ rest) t_op.blank.1) in
    looped-Sound env (infix_op lv op a b) (some lv) refl
      (λ ll q. loop_level-injective ll (some lv) q)
      (append-Opens env (print_at (level lv) a) (operator_text op ++ t)
        (Sound-Opens env (level lv) a h)
        (λ rest. rw (append_assoc (operator_text op) t rest) (fo rest).spaced))
      (Round-LoopReads env (some lv) op (print_at (level lv) a) (operator_text op) t
        (λ d. eval env d a) (λ d v1. next (eval env d b) (λ v2. apply lv d op v1 v2))
        (Sound-LoopReads env (some lv) a h) (operator_text-length lv op is)
        (omega (arith, token_level-operator lv op is)) fo
        (infix-Round env lv op t (λ d. eval env d b) is t_op
          (print_at-Reads env (suc (level lv)) b (omega (arith, level-bounds lv)) g)))

logical_token : Bool → Token
logical_token true = tok_logical_and
logical_token false = tok_logical_or

logical-Follows :
    (env : Env) (is_and : Bool) (p : Bytes)
    → Follows env (logical_text is_and ++ p) (logical_token is_and) p
unfolding logical_token
logical-Follows env true p = and-Follows env p
logical-Follows env false p = or-Follows env p

logical_token-operator : (is_and : Bool) → logical_operator (logical_token is_and) ≡ some is_and
unfolding logical_token logical_operator
logical_token-operator true = refl
logical_token-operator false = refl

logical_token-level : (is_and : Bool) → token_level (logical_token is_and) ≡ 2
unfolding logical_token token_level
logical_token-level true = refl
logical_token-level false = refl

logical_text-length : (is_and : Bool) → length (logical_text is_and) ≡ 3
unfolding logical_text
logical_text-length true = refl
logical_text-length false = refl

logical-Sound :
    (env : Env) (is_and : Bool) (a b : Tree)
    → Sound env a
    → Sound env b
    → Sound env (logical is_and a b)
unfolding print eval print_at precedence loop_level
logical-Sound env is_and a b h g =
    let t = print_at 2 b in
    let t_op = Sound-Opens env 2 b g in
    let op = logical_token is_and in
    let fo : (rest : Bytes) → Follows env (logical_text is_and ++ (t ++ rest)) op (t ++ rest) =
      λ rest. logical-Follows env is_and (t ++ rest) in
    looped-Sound env (logical is_and a b) none refl (λ ll q. loop_level-injective ll none q)
      (append-Opens env (print_at 1 a) (logical_text is_and ++ t) (Sound-Opens env 1 a h)
        (λ rest. rw (append_assoc (logical_text is_and) t rest) (fo rest).spaced))
      (Round-LoopReads env none op (print_at 1 a) (logical_text is_and) t (λ d. eval env d a)
        (λ d v1.
          next (eval env (d || short_circuits env is_and v1) b) (λ v2. choose env is_and v1 v2))
        (Sound-LoopReads env none a h) (omega (arith, logical_text-length is_and))
        (omega (arith, logical_token-level is_and)) fo
        (logical-Round env is_and op t (λ d. eval env d b) (logical_token-operator is_and) t_op
          (print_at-Reads env 2 b (omega arith) g)))

ternary-Sound :
    (env : Env) (c a b : Tree) → Sound env c → Sound env a → Sound env b → Sound env (ternary c a b)
unfolding print eval print_at precedence
ternary-Sound env c a b hc ha hb = record {
  opens =
      append-Opens env (print_at 1 c) ((32 ∷ b'?' ∷ print a) ++ (32 ∷ b':' ∷ print b))
        (Sound-Opens env 1 c hc) (λ rest. refl);
  own =
      ternary-Reads env (print_at 1 c) (print a) (print b) (λ d. eval env d c) (λ d. eval env d a)
        (λ d. eval env d b) (Sound-Opens env 1 c hc) (print_at-Reads env 1 c (omega arith) hc)
        ha.opens (print-Reads env a ha) hb.opens (print-Reads env b hb);
  looped = λ ll q. absurd (omega (arith, loop_level_pos ll));
}

pub IsWritable-Sound : (env : Env) → env.expand ≡ false → (e : Tree) → IsWritable e → Sound env e
unfolding print precedence
IsWritable-Sound env x (number s) (n, h) =
    IsLiteral-Sound env (number s) refl (number-IsLiteral env s x n h)
IsWritable-Sound env x (quoted s) h =
    IsLiteral-Sound env (quoted s) refl (quoted-IsLiteral env s x h)
IsWritable-Sound env x (quoted_version s) (n, h) =
    IsLiteral-Sound env (quoted_version s) refl (quoted_version-IsLiteral env s x n h)
IsWritable-Sound env x (minus a) h = minus-Sound env a (IsWritable-Sound env x a h)
IsWritable-Sound env x (inverse a) h = inverse-Sound env a (IsWritable-Sound env x a h)
IsWritable-Sound env x (infix_op lv op a b) (is, h, g) =
    infix-Sound env lv op a b is (IsWritable-Sound env x a h) (IsWritable-Sound env x b g)
IsWritable-Sound env x (logical is_and a b) (h, g) =
    logical-Sound env is_and a b (IsWritable-Sound env x a h) (IsWritable-Sound env x b g)
IsWritable-Sound env x (ternary c a b) (hc, ha, hb) =
    ternary-Sound env c a b (IsWritable-Sound env x c hc) (IsWritable-Sound env x a ha)
      (IsWritable-Sound env x b hb)
