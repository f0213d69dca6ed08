-- ===== src/Expr/Agrees/Operators.antt =====
-- The infix operators of the parser against the meaning of the tokens.
use rpm.Base.{
  some, none, ℕ, ◌/◌, ◌-◌, ◌^◌, ◌≡◌, refl, Bool, true, not, ◌==◌, ltb, arith, if◌then◌else◌,
  Bool-cases, inl, inr,
}
use rpm.Expr.{
  Value, integer, text, version, failed, truth, negate_int, magnitude, is_negative, differs,
  divide_int, value_cmp, holds, same_type, is_type, type_of, Level, relational, additive,
  multiplicative, is_operator, apply, apply_multiply_divide, apply_add_subtract, Token, tok_add,
  tok_minus, tok_multiply, tok_divide, tok_eq, tok_neq, tok_lt, tok_le, tok_gt, tok_ge,
}
use rpm.Expr.Meaning.{
  are_alike, opposite, quotient, value_order, is_lt, is_gt, is_eq, compared, operation,
}

pub same_type-are_alike : (v w : Value) → same_type v w ≡ are_alike v w
unfolding same_type type_of is_type are_alike
same_type-are_alike (integer i) (integer j) = refl
same_type-are_alike (integer i) (text t) = refl
same_type-are_alike (integer i) (version w) = refl
same_type-are_alike (text s) (integer j) = refl
same_type-are_alike (text s) (text t) = refl
same_type-are_alike (text s) (version w) = refl
same_type-are_alike (version v) (integer j) = refl
same_type-are_alike (version v) (text t) = refl
same_type-are_alike (version v) (version w) = refl

pub negate_int-opposite : (i : ℕ) → negate_int i ≡ opposite i
unfolding negate_int opposite
negate_int-opposite i = ground arith

magnitude-is_negative : (i : ℕ) → magnitude i ≡ (if ltb i (2 ^ 31) then i else 2 ^ 32 - i)
unfolding magnitude is_negative negate_int
magnitude-is_negative i = ground arith

is_negative-ltb : (i : ℕ) → is_negative i ≡ not (ltb i (2 ^ 31))
unfolding is_negative
is_negative-ltb i = ground arith

divide_int-quotient : (i j : ℕ) → (if j == 0 then failed else divide_int i j) ≡ quotient i j
unfolding divide_int quotient differs
divide_int-quotient i j = elim (Bool-cases (ltb i (2 ^ 31))) [
  | inl e ↦ elim (Bool-cases (ltb j (2 ^ 31))) [
    | inl f ↦
        rw
          (
            magnitude-is_negative i,
            magnitude-is_negative j,
            is_negative-ltb i,
            is_negative-ltb j,
            e,
            f,
          )
          refl
    | inr f ↦
        rw
          (
            magnitude-is_negative i,
            magnitude-is_negative j,
            is_negative-ltb i,
            is_negative-ltb j,
            e,
            f,
            negate_int-opposite (i / (2 ^ 32 - j)),
          )
          refl
  ]
  | inr e ↦ elim (Bool-cases (ltb j (2 ^ 31))) [
    | inl f ↦
        rw
          (
            magnitude-is_negative i,
            magnitude-is_negative j,
            is_negative-ltb i,
            is_negative-ltb j,
            e,
            f,
            negate_int-opposite ((2 ^ 32 - i) / j),
          )
          refl
    | inr f ↦
        rw
          (
            magnitude-is_negative i,
            magnitude-is_negative j,
            is_negative-ltb i,
            is_negative-ltb j,
            e,
            f,
          )
          refl
  ]
]

multiply_divide-operation :
    (d : Bool) (op : Token) (v w : Value)
    → is_operator multiplicative op ≡ true
    → apply multiplicative d op v w ≡ operation d op v w
unfolding apply apply_multiply_divide operation is_operator same_type type_of is_type
multiply_divide-operation d tok_multiply (integer i) (integer j) h = ground arith
multiply_divide-operation d tok_divide (integer i) (integer j) h =
    ground (arith, divide_int-quotient i j)
multiply_divide-operation d tok_multiply (integer i) (text t) h = refl
multiply_divide-operation d tok_multiply (integer i) (version w) h = refl
multiply_divide-operation d tok_multiply (text s) (integer j) h = refl
multiply_divide-operation d tok_multiply (text s) (text t) h = refl
multiply_divide-operation d tok_multiply (text s) (version w) h = refl
multiply_divide-operation d tok_multiply (version v) (integer j) h = refl
multiply_divide-operation d tok_multiply (version v) (text t) h = refl
multiply_divide-operation d tok_multiply (version v) (version w) h = refl
multiply_divide-operation d tok_divide (integer i) (text t) h = refl
multiply_divide-operation d tok_divide (integer i) (version w) h = refl
multiply_divide-operation d tok_divide (text s) (integer j) h = refl
multiply_divide-operation d tok_divide (text s) (text t) h = refl
multiply_divide-operation d tok_divide (text s) (version w) h = refl
multiply_divide-operation d tok_divide (version v) (integer j) h = refl
multiply_divide-operation d tok_divide (version v) (text t) h = refl
multiply_divide-operation d tok_divide (version v) (version w) h = refl
multiply_divide-operation d _ v w h = absurd (ground arith)

add_subtract-operation :
    (d : Bool) (op : Token) (v w : Value)
    → is_operator additive op ≡ true
    → apply additive d op v w ≡ operation d op v w
unfolding apply apply_add_subtract operation is_operator same_type type_of is_type
add_subtract-operation d tok_add (integer i) (integer j) h = refl
add_subtract-operation d tok_add (text s) (text t) h = refl
add_subtract-operation d tok_add (integer i) (text t) h = refl
add_subtract-operation d tok_add (integer i) (version w) h = refl
add_subtract-operation d tok_add (text s) (integer j) h = refl
add_subtract-operation d tok_add (text s) (version w) h = refl
add_subtract-operation d tok_add (version v) (integer j) h = refl
add_subtract-operation d tok_add (version v) (text t) h = refl
add_subtract-operation d tok_add (version v) (version w) h = refl
add_subtract-operation d tok_minus (integer i) (integer j) h = refl
add_subtract-operation d tok_minus (integer i) (text t) h = refl
add_subtract-operation d tok_minus (integer i) (version w) h = refl
add_subtract-operation d tok_minus (text s) (integer j) h = refl
add_subtract-operation d tok_minus (text s) (text t) h = refl
add_subtract-operation d tok_minus (text s) (version w) h = refl
add_subtract-operation d tok_minus (version v) (integer j) h = refl
add_subtract-operation d tok_minus (version v) (text t) h = refl
add_subtract-operation d tok_minus (version v) (version w) h = refl
add_subtract-operation d _ v w h = absurd (ground arith)

value_cmp-value_order :
    (v w : Value) → value_order v w ≡ (if same_type v w then some (value_cmp v w) else none)
unfolding value_order value_cmp same_type type_of is_type is_negative
value_cmp-value_order (integer i) (integer j) = ground arith
value_cmp-value_order (integer i) (text t) = refl
value_cmp-value_order (integer i) (version w) = refl
value_cmp-value_order (text s) (integer j) = refl
value_cmp-value_order (text s) (text t) = refl
value_cmp-value_order (text s) (version w) = refl
value_cmp-value_order (version v) (integer j) = refl
value_cmp-value_order (version v) (text t) = refl
value_cmp-value_order (version v) (version w) = refl

relational-operation :
    (d : Bool) (op : Token) (v w : Value)
    → is_operator relational op ≡ true
    → apply relational d op v w ≡ operation d op v w
unfolding apply operation is_operator compared is_lt is_gt is_eq holds truth
relational-operation d tok_eq v w h = ground (arith, value_cmp-value_order v w)
relational-operation d tok_neq v w h = ground (arith, value_cmp-value_order v w)
relational-operation d tok_lt v w h = ground (arith, value_cmp-value_order v w)
relational-operation d tok_le v w h = ground (arith, value_cmp-value_order v w)
relational-operation d tok_gt v w h = ground (arith, value_cmp-value_order v w)
relational-operation d tok_ge v w h = ground (arith, value_cmp-value_order v w)
relational-operation d _ v w h = absurd (ground arith)

pub apply-operation :
    (lv : Level) (d : Bool) (op : Token) (v w : Value)
    → is_operator lv op ≡ true
    → apply lv d op v w ≡ operation d op v w
apply-operation multiplicative d op v w h = multiply_divide-operation d op v w h
apply-operation additive d op v w h = add_subtract-operation d op v w h
apply-operation relational d op v w h = relational-operation d op v w h
