-- ===== src/Expr/Sound.antt =====
-- The descent of rpmio/expression.cc on the texts of trees.
pub mod Operators
use rpm.Base.{
  ℕ, suc, ◌≤◌, ◌<◌, ◌≡◌, refl, sym, ap, ◌∙◌, Bool, true, false, ◌||◌, none, some, ◌∷◌, ◌++◌,
  append_assoc, ◌==◌, ltb, length, Bytes, arith, Bool-cases, inl, inr,
}
use rpm.Expr.{
  done, next, Env, Level, relational, additive, multiplicative, is_operator, apply, Token,
  tok_minus, tok_not, tok_add, tok_multiply, tok_divide, tok_eq, tok_neq, tok_lt, tok_le, tok_gt,
  tok_ge, tok_logical_and, tok_logical_or,
}
use rpm.Expr.Parser.{logical_operator, choose, short_circuits}
use rpm.Expr.Gives.{token_level, token_level-operator}
use rpm.Expr.Reading.{
  read, state_at, IsSpaced, Follows, operator-Follows, and-Follows, or-Follows, read_minus,
  read_not,
}
use rpm.Expr.Reads.{Reads, Loop, loop_level, LoopReads, Reads-LoopReads, LoopReads-Reads}
use rpm.Expr.Reads.Wrapped.{wrap_if-Reads, Opens, wrap_if-Opens}
use rpm.Expr.Steps.{infix-Round, logical-Round, Round-LoopReads}
use rpm.Expr.Operands.{minus-Reads, inverse-Reads, ternary-Reads}
use rpm.Expr.Literals.{IsLiteral, number-IsLiteral, quoted-IsLiteral, quoted_version-IsLiteral}
use rpm.Expr.Syntax.{
  Tree, number, quoted, quoted_version, minus, inverse, infix_op, logical, ternary, eval, level,
  precedence, operator_text, logical_text, wrap, print, print_at, IsWritable,
}

-- A tree whose text is read at its own level, and in front of the operators of its loop.
pub record Sound (env : Env) (e : Tree) : Type 0 where
  pub opens : Opens env (print e)
  pub own : Reads env (precedence e) (print e) (λ d. eval env d e)
  pub looped :
      (ll : Loop) → precedence e ≡ loop_level ll → LoopReads env ll (print e) (λ d. eval env d e)

level-bounds : (lv : Level) → (2 ≤ level lv) × (level lv ≤ 4)
unfolding level
level-bounds relational = (omega arith, omega arith)
level-bounds additive = (omega arith, omega arith)
level-bounds multiplicative = (omega arith, omega arith)

precedence_le : (e : Tree) → precedence e ≤ 5
unfolding precedence
precedence_le (infix_op lv op a b) = omega (arith, level-bounds lv)
precedence_le (number s) = omega arith
precedence_le (quoted s) = omega arith
precedence_le (quoted_version s) = omega arith
precedence_le (minus a) = omega arith
precedence_le (inverse a) = omega arith
precedence_le (logical is_and a b) = omega arith
precedence_le (ternary c a b) = omega arith

print_at-Reads :
    (env : Env) (k : ℕ) (e : Tree)
    → k ≤ 5
    → Sound env e
    → Reads env k (print_at k e) (λ d. eval env d e)
unfolding print_at
print_at-Reads env k e l h =
    wrap_if-Reads env k (precedence e) (print e) (λ d. eval env d e) (precedence_le e) l h.opens
      h.own

print_at-zero : (e : Tree) → print_at 0 e ≡ print e
unfolding print_at
print_at-zero e =
    let no : ltb (precedence e) 0 ≡ false = ground arith in rw no (unfold wrap in refl)

pub print-Reads : (env : Env) (e : Tree) → Sound env e → Reads env 0 (print e) (λ d. eval env d e)
print-Reads env e h = rw⁻¹ (print_at-zero e) (print_at-Reads env 0 e (omega arith) h)

Sound-Opens : (env : Env) (k : ℕ) (e : Tree) → Sound env e → Opens env (print_at k e)
unfolding print_at
Sound-Opens env k e h = wrap_if-Opens env (ltb (precedence e) k) (print e) h.opens

loop_level_lt : (ll : Loop) → loop_level ll < 5
unfolding loop_level
loop_level_lt none = omega arith
loop_level_lt (some lv) = omega (arith, level-bounds lv)

loop_level_pos : (ll : Loop) → 1 ≤ loop_level ll
unfolding loop_level
loop_level_pos none = omega arith
loop_level_pos (some lv) = omega (arith, level-bounds lv)

-- A tree as the first operand of a loop.
Sound-LoopReads :
    (env : Env) (ll : Loop) (e : Tree)
    → Sound env e
    → LoopReads env ll (print_at (loop_level ll) e) (λ d. eval env d e)
unfolding print_at
Sound-LoopReads env ll e h = elim (Bool-cases (precedence e == loop_level ll)) [
  | inl q ↦
      let plain : ltb (precedence e) (loop_level ll) ≡ false = ground (arith, q) in
      rw plain (unfold wrap in h.looped ll (ground (arith, q)))
  | inr q ↦
      let same : ltb (precedence e) (loop_level ll) ≡ ltb (precedence e) (suc (loop_level ll)) =
        ground (arith, q) in
      rw same (
        Reads-LoopReads env ll (print_at (suc (loop_level ll)) e) (λ d. eval env d e)
          (print_at-Reads env (suc (loop_level ll)) e (omega (arith, loop_level_lt ll)) h))
]

append-Opens :
    (env : Env) (x w : Bytes)
    → Opens env x
    → ((rest : Bytes) → IsSpaced (w ++ rest))
    → Opens env (x ++ w)
append-Opens env x w op h = record {
  blank = (op.blank.0 ++ w, ap (λ y. y ++ w) op.blank.1);
  first = λ d rest sp.
      let (s, e) = op.first d (w ++ rest) (h rest) in
      (s, ap (read env d) (append_assoc x w rest) ∙ e);
}

-- What is no operator's tree has no loop of its own.
unlooped :
    (env : Env) (e : Tree)
    → precedence e ≡ 5
    → (ll : Loop) → precedence e ≡ loop_level ll
    → LoopReads env ll (print e) (λ d. eval env d e)
unlooped env e h ll q = absurd (omega (arith, loop_level_lt ll))

IsLiteral-Sound :
    (env : Env) (e : Tree)
    → precedence e ≡ 5
    → IsLiteral env (print e) (λ d. eval env d e)
    → Sound env e
IsLiteral-Sound env e h l = record {
  opens = l.opens;
  own = rw h l.literal_reads;
  looped = unlooped env e h;
}

looped-Sound :
    (env : Env) (e : Tree) (ll : Loop)
    → precedence e ≡ loop_level ll
    → ((ll' : Loop) → loop_level ll' ≡ loop_level ll → ll' ≡ ll)
    → Opens env (print e)
    → LoopReads env ll (print e) (λ d. eval env d e)
    → Sound env e
looped-Sound env e ll q only op h = record {
  opens = op;
  own = rw q (LoopReads-Reads env ll (print e) (λ d. eval env d e) h);
  looped = λ ll' q'. rw (only ll' (sym q' ∙ q)) h;
}

loop_level-injective : (x y : Loop) → loop_level x ≡ loop_level y → x ≡ y
unfolding loop_level level
loop_level-injective none none h = refl
loop_level-injective none (some relational) h = absurd (omega arith)
loop_level-injective none (some additive) h = absurd (omega arith)
loop_level-injective none (some multiplicative) h = absurd (omega arith)
loop_level-injective (some relational) none h = absurd (omega arith)
loop_level-injective (some additive) none h = absurd (omega arith)
loop_level-injective (some multiplicative) none h = absurd (omega arith)
loop_level-injective (some relational) (some relational) h = refl
loop_level-injective (some relational) (some additive) h = absurd (omega arith)
loop_level-injective (some relational) (some multiplicative) h = absurd (omega arith)
loop_level-injective (some additive) (some relational) h = absurd (omega arith)
loop_level-injective (some additive) (some additive) h = refl
loop_level-injective (some additive) (some multiplicative) h = absurd (omega arith)
loop_level-injective (some multiplicative) (some relational) h = absurd (omega arith)
loop_level-injective (some multiplicative) (some additive) h = absurd (omega arith)
loop_level-injective (some multiplicative) (some multiplicative) h = refl

prefix-Opens :
    (env : Env) (c : ℕ) (op : Token) (t : Bytes)
    → ((d : Bool) (p : Bytes) → read env d (32 ∷ c ∷ (t ++ p)) ≡ done (state_at d op none (t ++ p)))
    → Opens env (32 ∷ c ∷ t)
prefix-Opens env c op t h = record {
  blank = (c ∷ t, refl);
  first = λ d rest sp. (state_at d op none (t ++ rest), h d rest);
}
