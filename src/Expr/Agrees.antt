-- ===== src/Expr/Agrees.antt =====
-- The parser's choices and the values of the trees against their meaning.
mod Operators
use rpm.Base.{
  ◌-◌, ◌≡◌, refl, ap, ◌∙◌, Bool, true, false, not, ◌||◌, [], ◌∷◌, arith, if◌then◌else◌, Bool-cases,
  inl, inr,
}
use rpm.Expr.{Value, integer, text, version, Outcome, done, next, Env, boolify, truth}
use rpm.Expr.Parser.{choose, short_circuits}
use rpm.Expr.Gives.{next-cong}
use rpm.Expr.Syntax.{
  Tree, number, quoted, quoted_version, minus, inverse, infix_op, logical, ternary, eval, select,
  minus_value, IsWritable,
}
use rpm.Expr.Meaning.{is_true, taken, negative, meaning}
use rpm.Expr.Agrees.Operators.{same_type-are_alike, negate_int-opposite, apply-operation}

pub boolify-is_true : (v : Value) → boolify v ≡ is_true v
unfolding boolify is_true
boolify-is_true (integer i) = ground arith
boolify-is_true (text []) = refl
boolify-is_true (text (c ∷ s)) = refl
boolify-is_true (version v) = refl

minus_value-negative : (v : Value) → minus_value v ≡ negative v
unfolding minus_value negative
minus_value-negative (integer i) = ap (λ n. done (integer n)) (negate_int-opposite i)
minus_value-negative (text s) = refl
minus_value-negative (version v) = refl

choose-taken :
    (env : Env) (is_and : Bool) (v w : Value)
    → choose env is_and v w
      ≡ taken v w (if is_true v then if is_and then w else v else if is_and then v else w)
unfolding choose taken
choose-taken env is_and v w = ground (arith, boolify-is_true v, same_type-are_alike v w)

pub short_circuits-is_true :
    (env : Env) (is_and : Bool) (v : Value)
    → short_circuits env is_and v ≡ (if is_true v then not is_and else is_and)
unfolding short_circuits
short_circuits-is_true env is_and v = ground (arith, boolify-is_true v)

select-taken_lem : (c : Bool) (v w : Value) → select c v w ≡ taken v w (if c then v else w)
unfolding select taken
select-taken_lem c v w = ground (arith, same_type-are_alike v w)

or_true : (d : Bool) → (d || true) ≡ true
or_true d = ground arith

or_false : (d : Bool) → (d || false) ≡ d
or_false d = ground arith

-- The second operand of `&&` and `||`.
logical-choice :
    (env : Env) (d is_and : Bool) (v : Value) (o m : Bool → Outcome Value)
    → ((x : Bool) → o x ≡ m x)
    → next (o (d || short_circuits env is_and v)) (λ w. choose env is_and v w) ≡ (
        if (if is_true v then is_and else not is_and)
        then next (m d) (λ w. taken v w w)
        else next (m true) (λ w. taken v w v))
logical-choice env d true v o m h = elim (Bool-cases (is_true v)) [
  | inl e ↦
      rw (short_circuits-is_true env true v, e, or_false d, h d)
        (next-cong (m d) _ _ (λ w. choose-taken env true v w ∙ (rw e refl)))
  | inr e ↦
      rw (short_circuits-is_true env true v, e, or_true d, h true)
        (next-cong (m true) _ _ (λ w. choose-taken env true v w ∙ (rw e refl)))
]
logical-choice env d false v o m h = elim (Bool-cases (is_true v)) [
  | inl e ↦
      rw (short_circuits-is_true env false v, e, or_true d, h true)
        (next-cong (m true) _ _ (λ w. choose-taken env false v w ∙ (rw e refl)))
  | inr e ↦
      rw (short_circuits-is_true env false v, e, or_false d, h d)
        (next-cong (m d) _ _ (λ w. choose-taken env false v w ∙ (rw e refl)))
]

-- The branches of the ternary operator.
ternary-choice :
    (d : Bool) (x : Value) (o p m n : Bool → Outcome Value)
    → ((y : Bool) → o y ≡ m y)
    → ((y : Bool) → p y ≡ n y)
    → next (o (d || not (boolify x))) (λ v. next (p (d || boolify x)) (λ w. select (boolify x) v w))
      ≡ (if is_true x
          then next (m d) (λ v. next (n true) (λ w. taken v w v))
          else next (m true) (λ v. next (n d) (λ w. taken v w w)))
ternary-choice d x o p m n h k = elim (Bool-cases (is_true x)) [
  | inl e ↦
      rw (boolify-is_true x, e, or_false d, or_true d, h d, k true)
        (next-cong (m d) _ _ (λ v. next-cong (n true) _ _ (λ w. select-taken_lem true v w)))
  | inr e ↦
      rw (boolify-is_true x, e, or_false d, or_true d, h true, k d)
        (next-cong (m true) _ _ (λ v. next-cong (n d) _ _ (λ w. select-taken_lem false v w)))
]

pub eval-meaning : (env : Env) (d : Bool) (e : Tree) → IsWritable e → eval env d e ≡ meaning env d e
unfolding eval meaning
eval-meaning env d (number s) h = refl
eval-meaning env d (quoted s) h = refl
eval-meaning env d (quoted_version s) h = refl
eval-meaning env d (minus a) h =
    rw (eval-meaning env d a h)
      (next-cong (meaning env d a) minus_value negative minus_value-negative)
eval-meaning env d (inverse a) h =
    rw (eval-meaning env d a h)
      (next-cong (meaning env d a) _ _ (λ v. unfold truth in ground (arith, boolify-is_true v)))
eval-meaning env d (infix_op lv op a b) h =
    rw (eval-meaning env d a h.1, eval-meaning env d b h.2)
      (next-cong (meaning env d a) _ _
        (λ v. next-cong (meaning env d b) _ _ (λ w. apply-operation lv d op v w h.0)))
eval-meaning env d (logical true a b) h = rw (eval-meaning env d a h.0) (
    next-cong (meaning env d a) _ _ (λ v.
      logical-choice env d true v (λ x. eval env x b) (λ x. meaning env x b)
        (λ x. eval-meaning env x b h.1)
      ∙ elim (Bool-cases (is_true v)) [ inl e ↦ rw e refl | inr e ↦ rw e refl ]))
eval-meaning env d (logical false a b) h = rw (eval-meaning env d a h.0) (
    next-cong (meaning env d a) _ _ (λ v.
      logical-choice env d false v (λ x. eval env x b) (λ x. meaning env x b)
        (λ x. eval-meaning env x b h.1)
      ∙ elim (Bool-cases (is_true v)) [ inl e ↦ rw e refl | inr e ↦ rw e refl ]))
eval-meaning env d (ternary c a b) h = rw (eval-meaning env d c h.0) (
    next-cong (meaning env d c) _ _ (λ x.
      ternary-choice d x (λ y. eval env y a) (λ y. eval env y b) (λ y. meaning env y a)
        (λ y. meaning env y b) (λ y. eval-meaning env y a h.1) (λ y. eval-meaning env y b h.2)))
