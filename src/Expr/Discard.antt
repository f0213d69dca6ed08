-- ===== src/Expr/Discard.antt =====
-- Trees that are discarded, as `RPMEXPR_DISCARD` of rpmio/expression.cc asks: the second operand of `&&`
-- and `||`, or a branch of the ternary operator.
pub mod Choices
use rpm.Base.{
  ◌≡◌, refl, sym, ◌∙◌, Bool, true, false, not, ◌&&◌, ◌||◌, Option, none, some, [], ◌∷◌, arith,
  if◌then◌else◌, Bool-cases, inl, inr,
}
use rpm.Version.Evr.{rpmver_parse, parse_evr}
use rpm.Expr.{
  Value, integer, text, version, Outcome, done, next, of_option, Env, boolify, truth, same_type,
  ValueType, type_integer, type_string, type_version, type_of, is_type, Level, relational, additive,
  multiplicative, apply, apply_multiply_divide, apply_add_subtract, Token, tok_add, tok_minus,
  tok_multiply, tok_divide, holds, value_cmp,
}
use rpm.Expr.Parser.{choose, short_circuits, parse_expr}
use rpm.Expr.Refines.{parse_expr-print}
use rpm.Expr.Types.{
  infix_type, same_types, then2, minus_type, is_type-same, inverse_type, with_condition, tree_type,
}
use rpm.Expr.Syntax.{
  Tree, number, quoted, quoted_version, minus, inverse, infix_op, logical, ternary, eval, select,
  minus_value, IsWritable, print,
}

-- There is a value of the type.
abbrev Returns : Outcome Value → ValueType → Type 0
Returns o t = (v : Value) × (o ≡ done v) × (type_of v ≡ t)

multiply_divide-Returns :
    (op : Token) (v1 v2 : Value) (t : ValueType)
    → infix_type multiplicative op (type_of v1) (type_of v2) ≡ some t
    → Returns (apply_multiply_divide true op v1 v2) t
unfolding apply_multiply_divide infix_type type_of
multiply_divide-Returns tok_multiply (integer i1) (integer i2) t h =
    (integer i1, refl, ground arith)
multiply_divide-Returns tok_divide (integer i1) (integer i2) t h = (integer i1, refl, ground arith)
multiply_divide-Returns tok_multiply _ v2 t h = absurd (ground arith)
multiply_divide-Returns tok_divide _ v2 t h = absurd (ground arith)
multiply_divide-Returns _ v1 v2 t h = absurd (ground arith)

add_subtract-Returns :
    (op : Token) (v1 v2 : Value) (t : ValueType)
    → infix_type additive op (type_of v1) (type_of v2) ≡ some t
    → Returns (apply_add_subtract op v1 v2) t
unfolding apply_add_subtract infix_type type_of
add_subtract-Returns tok_add (integer i1) (integer i2) t h = (_, refl, ground arith)
add_subtract-Returns tok_minus (integer i1) (integer i2) t h = (_, refl, ground arith)
add_subtract-Returns tok_add (text s1) (text s2) t h = (_, refl, ground arith)
add_subtract-Returns tok_add _ v2 t h = absurd (ground arith)
add_subtract-Returns tok_minus _ v2 t h = absurd (ground arith)
add_subtract-Returns _ v1 v2 t h = absurd (ground arith)

infix_type-same :
    (lv : Level) (op : Token) (t1 t2 t : ValueType)
    → infix_type lv op t1 t2 ≡ some t
    → is_type t1 t2 ≡ true
unfolding infix_type is_type
infix_type-same relational op t1 t2 t h = ground (arith, h)
infix_type-same multiplicative tok_multiply type_integer type_integer t h = refl
infix_type-same multiplicative tok_divide type_integer type_integer t h = refl
infix_type-same multiplicative _ t1 t2 t h = absurd (ground arith)
infix_type-same additive tok_add type_integer type_integer t h = refl
infix_type-same additive tok_minus type_integer type_integer t h = refl
infix_type-same additive tok_add type_string type_string t h = refl
infix_type-same additive _ t1 t2 t h = absurd (ground arith)

apply-Returns :
    (lv : Level) (op : Token) (v1 v2 : Value) (t : ValueType)
    → infix_type lv op (type_of v1) (type_of v2) ≡ some t
    → Returns (apply lv true op v1 v2) t
unfolding apply same_type
apply-Returns multiplicative op v1 v2 t h =
    rw (infix_type-same multiplicative op (type_of v1) (type_of v2) t h)
      (multiply_divide-Returns op v1 v2 t h)
apply-Returns additive op v1 v2 t h =
    rw (infix_type-same additive op (type_of v1) (type_of v2) t h)
      (add_subtract-Returns op v1 v2 t h)
apply-Returns relational op v1 v2 t h =
    let same = infix_type-same relational op (type_of v1) (type_of v2) t h in
    rw same (
      truth (holds op (value_cmp v1 v2)),
      refl,
      unfold infix_type truth type_of in ground (arith, same, h),
    )

then2-inverse :
    (o1 o2 : Option ValueType) (f : ValueType → ValueType → Option ValueType) (t : ValueType)
    → then2 o1 o2 f ≡ some t
    → (t1 : ValueType) × (t2 : ValueType) × (o1 ≡ some t1) × (o2 ≡ some t2) × (f t1 t2 ≡ some t)
unfolding then2
then2-inverse (some t1) (some t2) f t h = (t1, t2, refl, refl, h)
then2-inverse none o2 f t h = absurd (ground arith)
then2-inverse (some t1) none f t h = absurd (ground arith)

-- Either of two values of the type.
either-Returns :
    (b : Bool) (v1 v2 : Value) (t : ValueType)
    → same_types (type_of v1) (type_of v2) ≡ some t
    → (type_of v1 ≡ t)
      × (type_of v2 ≡ t)
      × (type_of (if b then v1 else v2) ≡ t)
      × (same_type v1 v2 ≡ true)
unfolding same_types same_type
either-Returns b v1 v2 t h = ground (arith, is_type-same (type_of v1) (type_of v2))

choose-Returns :
    (env : Env) (is_and : Bool) (v1 v2 : Value) (t : ValueType)
    → same_types (type_of v1) (type_of v2) ≡ some t
    → Returns (choose env is_and v1 v2) t
unfolding choose
choose-Returns env is_and v1 v2 t h =
    let b = (is_and && boolify v1) || (not is_and && not (boolify v1)) in
    let (k1, k2, k, same) = either-Returns (not b) v1 v2 t h in
    rw same (if b then v2 else v1, refl, ground (arith, k1, k2))

select-Returns :
    (c : Bool) (v1 v2 : Value) (t : ValueType)
    → same_types (type_of v1) (type_of v2) ≡ some t
    → Returns (select c v1 v2) t
unfolding select
select-Returns c v1 v2 t h =
    let (k1, k2, k, same) = either-Returns c v1 v2 t h in rw same (if c then v1 else v2, refl, k)

minus-Returns :
    (v : Value) (t : ValueType) → minus_type (some (type_of v)) ≡ some t → Returns (minus_value v) t
unfolding minus_type minus_value type_of
minus-Returns (integer i) t h = (_, refl, ground arith)
minus-Returns (text s) t h = absurd (ground arith)
minus-Returns (version x) t h = absurd (ground arith)

minus_type-inverse :
    (o : Option ValueType) (t : ValueType)
    → minus_type o ≡ some t
    → (o ≡ some type_integer) × (t ≡ type_integer)
unfolding minus_type
minus_type-inverse (some type_integer) t h = (refl, ground arith)
minus_type-inverse _ t h = absurd (ground arith)

inverse_type-inverse :
    (o : Option ValueType) (t : ValueType)
    → inverse_type o ≡ some t
    → (t1 : ValueType) × (o ≡ some t1) × (t ≡ type_integer)
unfolding inverse_type
inverse_type-inverse (some t1) t h = (t1, refl, ground arith)
inverse_type-inverse none t h = absurd (ground arith)

with_condition-inverse :
    (o u : Option ValueType) (t : ValueType)
    → with_condition o u ≡ some t
    → (t1 : ValueType) × (o ≡ some t1) × (u ≡ some t)
unfolding with_condition
with_condition-inverse (some t1) u t h = (t1, refl, h)
with_condition-inverse none u t h = absurd (ground arith)

truth-type : (b : Bool) (t : ValueType) → t ≡ type_integer → type_of (truth b) ≡ t
unfolding truth type_of
truth-type b t h = sym h

minus_type-integer : (t : ValueType) → t ≡ type_integer → minus_type (some type_integer) ≡ some t
unfolding minus_type
minus_type-integer t h = ground (arith, h)

-- A discarded tree that has a type has a value of it.
discarded :
    (env : Env) (e : Tree) (t : ValueType) → tree_type e ≡ some t → Returns (eval env true e) t
unfolding eval tree_type next
discarded env (number s) t h = (integer (env.atoi []), refl, unfold type_of in ground arith)
discarded env (quoted s) t h = (text [], refl, unfold type_of in ground arith)
discarded env (quoted_version s) t h = (
  version (parse_evr (b'0' ∷ [])),
  unfold rpmver_parse of_option in refl,
  unfold type_of in ground arith,
)
discarded env (minus a) t h =
    let (p, q) = minus_type-inverse (tree_type a) t h in
    let (v, e, k) = discarded env a type_integer p in
    rw e (minus-Returns v t (rw k (minus_type-integer t q)))
discarded env (inverse a) t h =
    let (t1, p, q) = inverse_type-inverse (tree_type a) t h in
    let (v, e, k) = discarded env a t1 p in
    rw e (truth (not (boolify v)), refl, truth-type (not (boolify v)) t q)
discarded env (infix_op lv op a b) t h =
    let (t1, t2, p1, p2, q) = then2-inverse (tree_type a) (tree_type b) (infix_type lv op) t h in
    let (v1, e1, k1) = discarded env a t1 p1 in
    let (v2, e2, k2) = discarded env b t2 p2 in
    rw (e1, e2) (apply-Returns lv op v1 v2 t (rw (k1, k2) q))
discarded env (logical is_and a b) t h =
    let (t1, t2, p1, p2, q) = then2-inverse (tree_type a) (tree_type b) same_types t h in
    let (v1, e1, k1) = discarded env a t1 p1 in
    let (v2, e2, k2) = discarded env b t2 p2 in
    rw (e1, e2) (choose-Returns env is_and v1 v2 t (rw (k1, k2) q))
discarded env (ternary c a b) t h =
    let (t0, p0, h') =
      with_condition-inverse (tree_type c) (then2 (tree_type a) (tree_type b) same_types) t h in
    let (t1, t2, p1, p2, q) = then2-inverse (tree_type a) (tree_type b) same_types t h' in
    let (v0, e0, k0) = discarded env c t0 p0 in
    let (v1, e1, k1) = discarded env a t1 p1 in
    let (v2, e2, k2) = discarded env b t2 p2 in
    rw (e0, e1, e2) (select-Returns (boolify v0) v1 v2 t (rw (k1, k2) q))
