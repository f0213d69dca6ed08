-- ===== src/Expr/Types.antt =====
-- The types of trees, and of what rpmio/expression.cc makes of their texts.
use rpm.Base.{
  ℕ, ◌*◌, ◌/◌, ◌%◌, ◌^◌, ◌≡◌, refl, sym, ◌∙◌, Bool, true, false, not, ◌||◌, Option, none, some,
  Bytes, arith, if◌then◌else◌,
}
use rpm.Version.Evr.{Evr}
use rpm.Expr.{
  Value, integer, text, version, Outcome, done, failed, fault, out_of_fuel, next, Env, boolify,
  truth, same_type, ValueType, type_integer, type_string, type_version, type_of, is_type, Level,
  relational, additive, multiplicative, apply, apply_multiply_divide, apply_add_subtract,
  divide_int, magnitude, differs, is_negative, negate_int, holds, value_cmp, Token, tok_add,
  tok_minus, tok_multiply, tok_divide,
}
use rpm.Expr.Parser.{choose, short_circuits, parse_expr}
use rpm.Expr.Refines.{parse_expr-print}
use rpm.Expr.Syntax.{
  Tree, number, quoted, quoted_version, minus, inverse, infix_op, logical, ternary, eval, select,
  minus_value, IsWritable, print,
}

-- The operators that take two types, and the type they give.
unfoldable pub infix_type : Level → Token → ValueType → ValueType → Option ValueType
unfolding is_type
infix_type multiplicative tok_multiply type_integer type_integer = some type_integer
infix_type multiplicative tok_divide type_integer type_integer = some type_integer
infix_type multiplicative _ _ _ = none
infix_type additive tok_add type_integer type_integer = some type_integer
infix_type additive tok_minus type_integer type_integer = some type_integer
infix_type additive tok_add type_string type_string = some type_string
infix_type additive _ _ _ = none
infix_type relational op t1 t2 = if is_type t1 t2 then some type_integer else none

unfoldable pub same_types : ValueType → ValueType → Option ValueType
unfolding is_type
same_types t1 t2 = if is_type t1 t2 then some t1 else none

unfoldable pub then2 :
    Option ValueType
    → Option ValueType
    → (ValueType → ValueType → Option ValueType)
    → Option ValueType
then2 (some t1) (some t2) f = f t1 t2
then2 _ _ f = none

unfoldable pub minus_type : Option ValueType → Option ValueType
minus_type (some type_integer) = some type_integer
minus_type _ = none

unfoldable pub inverse_type : Option ValueType → Option ValueType
inverse_type (some t) = some type_integer
inverse_type none = none

unfoldable pub with_condition : Option ValueType → Option ValueType → Option ValueType
with_condition (some t) u = u
with_condition none u = none

-- The type of a tree, if it has one.
unfoldable pub tree_type : Tree → Option ValueType
tree_type (number s) = some type_integer
tree_type (quoted s) = some type_string
tree_type (quoted_version s) = some type_version
tree_type (minus a) = minus_type (tree_type a)
tree_type (inverse a) = inverse_type (tree_type a)
tree_type (infix_op lv op a b) = then2 (tree_type a) (tree_type b) (infix_type lv op)
tree_type (logical is_and a b) = then2 (tree_type a) (tree_type b) same_types
tree_type (ternary c a b) =
    with_condition (tree_type c) (then2 (tree_type a) (tree_type b) same_types)

next-inverse :
    {A B : Type 0} (o : Outcome A) (f : A → Outcome B) (b : B)
    → next o f ≡ done b
    → (a : A) × (o ≡ done a) × (f a ≡ done b)
unfolding next
next-inverse (done a) f b h = (a, refl, h)
next-inverse failed f b h = absurd (ground arith)
next-inverse fault f b h = absurd (ground arith)
next-inverse out_of_fuel f b h = absurd (ground arith)

same_types-same : (t1 t2 t : ValueType) → same_types t1 t2 ≡ some t → t1 ≡ t2
unfolding same_types is_type
same_types-same type_integer type_integer t h = refl
same_types-same type_string type_string t h = refl
same_types-same type_version type_version t h = refl
same_types-same _ _ t h = absurd (ground arith)

pub is_type-same : (t1 t2 : ValueType) → is_type t1 t2 ≡ true → t1 ≡ t2
unfolding is_type
is_type-same type_integer type_integer h = refl
is_type-same type_string type_string h = refl
is_type-same type_version type_version h = refl
is_type-same _ _ h = absurd (ground arith)

integer-type :
    (i : ℕ) (v : Value) → done (integer i) ≡ done v → some type_integer ≡ some (type_of v)
unfolding type_of
integer-type i (integer j) h = refl
integer-type i (text s) h = absurd (ground arith)
integer-type i (version w) h = absurd (ground arith)

text-type : (s : Bytes) (v : Value) → done (text s) ≡ done v → some type_string ≡ some (type_of v)
unfolding type_of
text-type s (integer j) h = absurd (ground arith)
text-type s (text u) h = refl
text-type s (version w) h = absurd (ground arith)

version-type :
    (x : Evr) (v : Value) → done (version x) ≡ done v → some type_version ≡ some (type_of v)
unfolding type_of
version-type x (integer j) h = absurd (ground arith)
version-type x (text s) h = absurd (ground arith)
version-type x (version w) h = refl

divide_int-type :
    (i1 i2 : ℕ) (v : Value) → divide_int i1 i2 ≡ done v → some type_integer ≡ some (type_of v)
unfolding divide_int
divide_int-type i1 i2 v h =
    let q = magnitude i1 / magnitude i2 in
    ground (
      arith,
      integer-type (if differs (is_negative i1) (is_negative i2) then negate_int q else q) v,
    )

multiply_divide-type :
    (d : Bool) (op : Token) (v1 v2 v : Value)
    → apply_multiply_divide d op v1 v2 ≡ done v
    → infix_type multiplicative op (type_of v1) (type_of v2) ≡ some (type_of v)
unfolding apply_multiply_divide infix_type type_of
multiply_divide-type d tok_multiply (integer i1) (integer i2) v h =
    ground (arith, integer-type i1 v, integer-type (i1 * i2 % 2 ^ 32) v)
multiply_divide-type d tok_divide (integer i1) (integer i2) v h =
    ground (arith, integer-type i1 v, divide_int-type i1 i2 v)
multiply_divide-type d _ v1 v2 v h = absurd (ground arith)

add_subtract-type :
    (op : Token) (v1 v2 v : Value)
    → apply_add_subtract op v1 v2 ≡ done v
    → infix_type additive op (type_of v1) (type_of v2) ≡ some (type_of v)
unfolding apply_add_subtract infix_type type_of
add_subtract-type tok_add (integer i1) (integer i2) v h = integer-type _ v h
add_subtract-type tok_minus (integer i1) (integer i2) v h = integer-type _ v h
add_subtract-type tok_add (text s1) (text s2) v h = text-type _ v h
add_subtract-type _ v1 v2 v h = absurd (ground arith)

apply-type :
    (lv : Level) (d : Bool) (op : Token) (v1 v2 v : Value)
    → apply lv d op v1 v2 ≡ done v
    → infix_type lv op (type_of v1) (type_of v2) ≡ some (type_of v)
unfolding apply same_type infix_type truth
apply-type multiplicative d op v1 v2 v h = ground (arith, multiply_divide-type d op v1 v2 v)
apply-type additive d op v1 v2 v h = ground (arith, add_subtract-type op v1 v2 v)
apply-type relational d op v1 v2 v h =
    ground (arith, integer-type (if holds op (value_cmp v1 v2) then 1 else 0) v)

choose-type :
    (env : Env) (is_and : Bool) (v1 v2 v : Value)
    → choose env is_and v1 v2 ≡ done v
    → same_types (type_of v1) (type_of v2) ≡ some (type_of v)
unfolding choose same_type same_types
choose-type env is_and v1 v2 v h = ground (arith, is_type-same (type_of v1) (type_of v2))

select-type :
    (c : Bool) (v1 v2 v : Value)
    → select c v1 v2 ≡ done v
    → same_types (type_of v1) (type_of v2) ≡ some (type_of v)
unfolding select same_type same_types
select-type c v1 v2 v h = ground (arith, is_type-same (type_of v1) (type_of v2))

minus_value-type :
    (v w : Value) → minus_value v ≡ done w → minus_type (some (type_of v)) ≡ some (type_of w)
unfolding minus_value minus_type type_of
minus_value-type (integer i) w h = integer-type _ w h
minus_value-type (text s) w h = absurd (ground arith)
minus_value-type (version x) w h = absurd (ground arith)

-- What a tree evaluates to has the tree's type.
pub eval-type :
    (env : Env) (d : Bool) (e : Tree) (v : Value)
    → eval env d e ≡ done v
    → tree_type e ≡ some (type_of v)
unfolding eval tree_type then2 with_condition
eval-type env d (number s) v h = integer-type _ v h
eval-type env d (quoted s) v h = text-type _ v h
eval-type env d (quoted_version s) v h =
    let (x, p, q) = next-inverse _ (λ v. done (version v)) v h in version-type x v q
eval-type env d (minus a) v h =
    let (x, p, q) = next-inverse (eval env d a) minus_value v h in
    rw (eval-type env d a x p) (minus_value-type x v q)
eval-type env d (inverse a) v h =
    let (x, p, q) = next-inverse (eval env d a) _ v h in
    rw (eval-type env d a x p) (unfold inverse_type truth in integer-type _ v q)
eval-type env d (infix_op lv op a b) v h =
    let (x, p, q) = next-inverse (eval env d a) _ v h in
    let (y, p', q') = next-inverse (eval env d b) (λ v2. apply lv d op x v2) v q in
    rw (eval-type env d a x p, eval-type env d b y p') (apply-type lv d op x y v q')
eval-type env d (logical is_and a b) v h =
    let (x, p, q) = next-inverse (eval env d a) _ v h in
    let d' = d || short_circuits env is_and x in
    let (y, p', q') = next-inverse (eval env d' b) (λ v2. choose env is_and x v2) v q in
    rw (eval-type env d a x p, eval-type env d' b y p') (choose-type env is_and x y v q')
eval-type env d (ternary c a b) v h =
    let (z, r, s) = next-inverse (eval env d c) _ v h in
    let da = d || not (boolify z) in
    let db = d || boolify z in
    let (x, p, q) = next-inverse (eval env da a) _ v s in
    let (y, p', q') = next-inverse (eval env db b) (λ v2. select (boolify z) x v2) v q in
    rw (eval-type env d c z r, eval-type env da a x p, eval-type env db b y p')
      (select-type (boolify z) x y v q')

-- An expression whose text is that of a tree without a type has no value, and a value that it has is of
-- the tree's type.
pub rpm_expr-type :
    (env : Env) (e : Tree) (v : Value)
    → env.expand ≡ false
    → IsWritable e
    → parse_expr env (print e) ≡ done v
    → tree_type e ≡ some (type_of v)
rpm_expr-type env e v x w h = eval-type env false e v (sym (parse_expr-print env e x w) ∙ h)
