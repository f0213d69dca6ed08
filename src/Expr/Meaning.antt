-- ===== src/Expr/Meaning.antt =====
-- What the expressions of rpmio/expression.cc mean, said without the functions of the parser: each
-- operator by clauses, and the value of a tree.
use rpm.Base.{
  ℕ, ◌+◌, ◌-◌, ◌*◌, ◌/◌, ◌%◌, ◌^◌, Bool, true, false, not, ◌&&◌, Option, none, some, [], ◌∷◌, ◌++◌,
  ◌==◌, ltb, Ordering, strcmp, if◌then◌else◌,
}
use rpm.Version.Evr.{rpmver_parse, rpmver_cmp}
use rpm.Expr.{
  Value, integer, text, version, Outcome, done, failed, fault, next, of_option, Env, Token, tok_add,
  tok_minus, tok_multiply, tok_divide, tok_eq, tok_neq, tok_lt, tok_le, tok_gt, tok_ge,
}
use rpm.Expr.Syntax.{
  Tree, number, quoted, quoted_version, minus, inverse, infix_op, logical, ternary,
}

-- Numbers that are not 0 and texts that are not empty hold; versions do not.
unfoldable pub is_true : Value → Bool
is_true (integer i) = if i == 0 then false else true
is_true (text []) = false
is_true (text (c ∷ s)) = true
is_true (version v) = false

unfoldable pub are_alike : Value → Value → Bool
are_alike (integer i) (integer j) = true
are_alike (text s) (text t) = true
are_alike (version v) (version w) = true
are_alike _ _ = false

-- The int with the opposite sign.
unfoldable pub opposite : ℕ → ℕ
opposite i = if i == 0 then 0 else 2 ^ 32 - i

-- The quotient of ints, rounded towards 0, by the signs of both.
unfoldable pub quotient : ℕ → ℕ → Outcome Value
unfolding opposite
quotient i j =
    if j == 0
    then failed
    else if i == 2 ^ 31 && j == 2 ^ 32 - 1
    then fault
    else if ltb i (2 ^ 31)
    then if ltb j (2 ^ 31)
      then done (integer (i / j))
      else done (integer (opposite (i / (2 ^ 32 - j))))
    else if ltb j (2 ^ 31)
    then done (integer (opposite ((2 ^ 32 - i) / j)))
    else done (integer ((2 ^ 32 - i) / (2 ^ 32 - j)))

-- The order of values of one type; that of ints is by the sign of their difference.
unfoldable pub value_order : Value → Value → Option Ordering
value_order (integer i) (integer j) =
    let d = (i + 2 ^ 32 - j) % 2 ^ 32 in
    some (if ltb d (2 ^ 31) then if d == 0 then Ordering.eq else Ordering.gt else Ordering.lt)
value_order (text s) (text t) = some (strcmp s t)
value_order (version v) (version w) = some (rpmver_cmp v w)
value_order _ _ = none

unfoldable pub is_lt : Ordering → Bool
is_lt Ordering.lt = true
is_lt _ = false

unfoldable pub is_gt : Ordering → Bool
is_gt Ordering.gt = true
is_gt _ = false

unfoldable pub is_eq : Ordering → Bool
is_eq Ordering.eq = true
is_eq _ = false

-- 1 or 0, for values that have an order.
unfoldable pub compared : (Ordering → Bool) → Option Ordering → Outcome Value
compared test none = failed
compared test (some o) = done (integer (if test o then 1 else 0))

-- What the infix operators mean; * and / do nothing where they are discarded.
unfoldable pub operation : Bool → Token → Value → Value → Outcome Value
unfolding compared value_order quotient is_lt is_gt is_eq
operation d tok_multiply (integer i) (integer j) = done (integer (if d then i else i * j % 2 ^ 32))
operation d tok_divide (integer i) (integer j) = if d then done (integer i) else quotient i j
operation d tok_add (integer i) (integer j) = done (integer ((i + j) % 2 ^ 32))
operation d tok_add (text s) (text t) = done (text (s ++ t))
operation d tok_minus (integer i) (integer j) = done (integer ((i + 2 ^ 32 - j) % 2 ^ 32))
operation d tok_eq v w = compared is_eq (value_order v w)
operation d tok_neq v w = compared (λ o. not (is_eq o)) (value_order v w)
operation d tok_lt v w = compared is_lt (value_order v w)
operation d tok_le v w = compared (λ o. not (is_gt o)) (value_order v w)
operation d tok_gt v w = compared is_gt (value_order v w)
operation d tok_ge v w = compared (λ o. not (is_lt o)) (value_order v w)
operation d _ v w = failed

-- `w`, if it is of the type of `v`.
unfoldable pub taken : Value → Value → Value → Outcome Value
unfolding are_alike
taken v w result = if are_alike v w then done result else failed

unfoldable pub negative : Value → Outcome Value
unfolding opposite
negative (integer i) = done (integer (opposite i))
negative _ = failed

-- The value of a tree. An operand that is not needed is discarded: its literals are empty, and its
-- products and quotients are their first operands.
unfoldable pub meaning : Env → Bool → Tree → Outcome Value
meaning env d (number s) = done (integer (env.atoi (if d then [] else s)))
meaning env d (quoted s) = done (text (if d then [] else s))
meaning env d (quoted_version s) =
    next (of_option (rpmver_parse (some (if d then b'0' ∷ [] else s)))) (λ v. done (version v))
meaning env d (minus a) = next (meaning env d a) negative
meaning env d (inverse a) =
    next (meaning env d a) (λ v. done (integer (if is_true v then 0 else 1)))
meaning env d (infix_op lv op a b) =
    next (meaning env d a) (λ v. next (meaning env d b) (λ w. operation d op v w))
meaning env d (logical true a b) =
    let discarded = meaning env true b in
    let needed = meaning env d b in
    next (meaning env d a)
      (λ v. if is_true v then next needed (λ w. taken v w w) else next discarded (λ w. taken v w v))
meaning env d (logical false a b) =
    let discarded = meaning env true b in
    let needed = meaning env d b in
    next (meaning env d a)
      (λ v. if is_true v then next discarded (λ w. taken v w v) else next needed (λ w. taken v w w))
meaning env d (ternary c a b) =
    let first = meaning env d a in
    let first_discarded = meaning env true a in
    let second = meaning env d b in
    let second_discarded = meaning env true b in
    next (meaning env d c) (λ x.
      if is_true x
      then next first (λ v. next second_discarded (λ w. taken v w v))
      else next first_discarded (λ v. next second (λ w. taken v w w)))
