-- ===== src/Expr.antt =====
-- rpmio/expression.cc: the expressions of `%[...]`, `%{expr:...}` and `%if`. An int is the number below
-- 2^32 that has its bits; where it would overflow it is taken to wrap around. The messages of errors
-- are not modelled, and of a failing call only that it fails: all callers pass the failure on.
pub mod Lexer
pub mod Parser
pub mod Syntax
pub mod Gives
pub mod Reading
pub mod Reads
pub mod Steps
pub mod Operands
pub mod Literals
pub mod Meaning
pub mod Agrees
pub mod Sound
pub mod Refines
pub mod Types
pub mod Within
pub mod Consumes
pub mod Enough
pub mod Terminates
pub mod Compare
mod Examples
pub mod Discard
use rpm.Base.{
  ℕ, ◌+◌, ◌-◌, ◌*◌, ◌/◌, ◌%◌, ◌^◌, Bool, true, false, not, ◌&&◌, ◌||◌, Option, none, some, List, [],
  ◌∷◌, ◌++◌, ◌==◌, ltb, leb, Bytes, Ordering, strcmp, is_empty, if◌then◌else◌,
}
use rpm.Version.Evr.{Evr, rpmver_cmp}

-- `struct value_s`
pub data Value : Type 0 where
  integer : ℕ → Value
  text : Bytes → Value
  version : Evr → Value

-- What a call comes to: a value, an error (-1 or NULL), a trap of the processor or a read outside of
-- the text, or more steps than the fuel has.
pub data Outcome (A : Type 0) : Type 0 where
  done : A → Outcome A
  failed : Outcome A
  fault : Outcome A
  out_of_fuel : Outcome A

unfoldable pub next : {A B : Type 0} → Outcome A → (A → Outcome B) → Outcome B
next (done a) f = f a
next failed f = failed
next fault f = fault
next out_of_fuel f = out_of_fuel

unfoldable pub of_option : {A : Type 0} → Option A → Outcome A
of_option none = failed
of_option (some a) = done a

-- Calls of other parts: `rpmExpandMacros`, `atoi`, `rasprintf` with "%d", `rpmluaCallStringFunction`,
-- and the flag `RPMEXPR_EXPAND`.
pub record Env : Type 0 where
  pub expand : Bool
  pub expand_macros : Bytes → Option Bytes
  pub atoi : Bytes → ℕ
  pub print_int : ℕ → Bytes
  pub call_lua : Bytes → List Value → Option Bytes

-- The type of a value.
pub data ValueType : Type 0 where
  type_integer type_string type_version : ValueType

unfoldable pub type_of : Value → ValueType
type_of (integer i) = type_integer
type_of (text s) = type_string
type_of (version v) = type_version

unfoldable pub is_type : ValueType → ValueType → Bool
is_type type_integer type_integer = true
is_type type_string type_string = true
is_type type_version type_version = true
is_type _ _ = false

-- `valueSameType`
unfoldable pub same_type : Value → Value → Bool
unfolding type_of is_type
same_type v1 v2 = is_type (type_of v1) (type_of v2)

-- `boolifyValue`
unfoldable pub boolify : Value → Bool
boolify (integer i) = not (i == 0)
boolify (text s) = not (is_empty s)
boolify (version v) = false

unfoldable pub truth : Bool → Value
truth b = integer (if b then 1 else 0)

unfoldable pub is_negative : ℕ → Bool
is_negative i = leb (2 ^ 31) i

unfoldable pub negate_int : ℕ → ℕ
negate_int i = (2 ^ 32 - i) % 2 ^ 32

unfoldable pub magnitude : ℕ → ℕ
unfolding is_negative negate_int
magnitude i = if is_negative i then negate_int i else i

unfoldable pub differs : Bool → Bool → Bool
differs true b = not b
differs false b = b

-- `i1 / i2`, for an `i2` that is not 0; the smallest int by -1 traps.
unfoldable pub divide_int : ℕ → ℕ → Outcome Value
unfolding is_negative negate_int magnitude
divide_int i1 i2 =
    if i1 == 2 ^ 31 && i2 == 2 ^ 32 - 1
    then fault
    else let q = magnitude i1 / magnitude i2 in
      done (integer (if differs (is_negative i1) (is_negative i2) then negate_int q else q))

-- `valueCmpInteger`, `valueCmpString` and `valueCmpVersion`, by their signs.
unfoldable pub value_cmp : Value → Value → Ordering
unfolding is_negative
value_cmp (integer i1) (integer i2) =
    let d = (i1 + 2 ^ 32 - i2) % 2 ^ 32 in
    if d == 0 then Ordering.eq else if is_negative d then Ordering.lt else Ordering.gt
value_cmp (text s1) (text s2) = strcmp s1 s2
value_cmp (version v1) (version v2) = rpmver_cmp v1 v2
value_cmp _ _ = Ordering.eq

-- The tokens. `TOK_VERSION` is never one: the token of a version is that of a string.
pub data Token : Type 0 where
  tok_eof tok_integer tok_string tok_add tok_minus tok_multiply tok_divide tok_open_p : Token
  tok_close_p tok_eq tok_neq tok_lt tok_le tok_gt tok_ge tok_not tok_logical_and : Token
  tok_logical_or tok_ternary_cond tok_ternary_alt tok_comma tok_function : Token

-- The levels of operators whose calls have one shape.
pub data Level : Type 0 where
  relational additive multiplicative : Level

-- Which tokens the loop of a level takes.
unfoldable pub is_operator : Level → Token → Bool
is_operator multiplicative tok_multiply = true
is_operator multiplicative tok_divide = true
is_operator additive tok_add = true
is_operator additive tok_minus = true
is_operator relational tok_eq = true
is_operator relational tok_neq = true
is_operator relational tok_lt = true
is_operator relational tok_le = true
is_operator relational tok_gt = true
is_operator relational tok_ge = true
is_operator _ _ = false

-- `doMultiplyDivide`, for two values of one type.
unfoldable pub apply_multiply_divide : Bool → Token → Value → Value → Outcome Value
unfolding divide_int
apply_multiply_divide discard tok_multiply (integer i1) (integer i2) =
    if discard then done (integer i1) else done (integer (i1 * i2 % 2 ^ 32))
apply_multiply_divide discard tok_divide (integer i1) (integer i2) =
    if discard then done (integer i1) else if i2 == 0 then failed else divide_int i1 i2
apply_multiply_divide _ _ _ _ = failed

-- `doAddSubtract`
unfoldable pub apply_add_subtract : Token → Value → Value → Outcome Value
apply_add_subtract tok_add (integer i1) (integer i2) = done (integer ((i1 + i2) % 2 ^ 32))
apply_add_subtract tok_minus (integer i1) (integer i2) =
    done (integer ((i1 + 2 ^ 32 - i2) % 2 ^ 32))
apply_add_subtract tok_add (text s1) (text s2) = done (text (s1 ++ s2))
apply_add_subtract _ _ _ = failed

-- `doRelational`: `r` of the sign of the comparison.
unfoldable pub holds : Token → Ordering → Bool
holds tok_eq Ordering.eq = true
holds tok_neq Ordering.lt = true
holds tok_neq Ordering.gt = true
holds tok_lt Ordering.lt = true
holds tok_le Ordering.lt = true
holds tok_le Ordering.eq = true
holds tok_gt Ordering.gt = true
holds tok_ge Ordering.gt = true
holds tok_ge Ordering.eq = true
holds _ _ = false

-- What an operator does with two values: the test of their types and the level's own part.
unfoldable pub apply : Level → Bool → Token → Value → Value → Outcome Value
unfolding same_type apply_multiply_divide apply_add_subtract holds truth
apply multiplicative discard op v1 v2 =
    if same_type v1 v2 then apply_multiply_divide discard op v1 v2 else failed
apply additive discard op v1 v2 = if same_type v1 v2 then apply_add_subtract op v1 v2 else failed
apply relational discard op v1 v2 =
    if same_type v1 v2 then done (truth (holds op (value_cmp v1 v2))) else failed
