-- ===== src/Expr/Examples.antt =====
-- Small expressions, with decimal numbers.
use rpm.Base.{
  ℕ, ◌+◌, ◌-◌, ◌*◌, ◌^◌, ◌≡◌, ◌≢◌, ◌∙◌, refl, true, false, none, some, [], ◌∷◌, Bytes, codes,
  is_digit, arith, Ordering, if◌then◌else◌, ltb, leb, ◌&&◌,
}
use rpm.Expr.{
  of_option, apply, same_type, is_type, apply_add_subtract, apply_multiply_divide, holds, truth,
  integer, done, fault, out_of_fuel, next, Env, value_cmp, is_negative, divide_int, is_operator,
  relational, additive, multiplicative, tok_eq, tok_add, tok_multiply, tok_divide, type_of,
}
use rpm.Expr.Lexer.{
  rd_token, lex, lex_value, lex_integer, only_two, starts_with, behind, is_space, token_end,
  ends_integer, get_valuebuf, up_to, wellformed_integer, valued, token,
}
use rpm.Expr.Reading.{read}
use rpm.Expr.Meaning.{is_true, meaning}
use rpm.Expr.Parser.{
  parse, at_eof, do_ternary, do_logical, logical_loop, do_infix, infix_loop, do_operand, do_primary,
  primary_step, infix_step, logical_step, ternary_step, literal, logical_operator, is_cond, is_eof,
  parse_expr, rpm_expr_bool_flags, rpm_expr_str_flags, value_text,
}
use rpm.Expr.Syntax.{
  Tree, number, minus, inverse, infix_op, logical, IsWritable, print, eval, wrap, precedence,
  operator_text, logical_text,
}
use rpm.Expr.Refines.{rpm_expr-print, parse_expr-print}
use rpm.Expr.Types.{tree_type, then2, infix_type, rpm_expr-type}
use rpm.Expr.Discard.Choices.{rpm_expr-short_circuit}
use rpm.Expr.Terminates.{rpm_expr-terminates}
use rpm.Expr.Compare.{value_cmp-signed, biased, order}

abbrev decimal_value : ℕ → Bytes → ℕ
decimal_value n [] = n
decimal_value n (c ∷ s) = decimal_value (10 * n + (c - 48)) s

abbrev plain_env : Env
plain_env = record {
  expand = false;
  expand_macros = λ s. some s;
  atoi = λ s. decimal_value 0 s;
  print_int = λ i. (48 + i) ∷ [];
  call_lua = λ name args. none;
}

abbrev one : Tree
one = number (codes "1")

abbrev zeroth : Tree
zeroth = number (codes "0")

-- 1 / 0
abbrev by_zero : Tree
by_zero = infix_op multiplicative tok_divide one zeroth

-- (1 + 1) * 1 == -1 && !0
abbrev sample : Tree
sample =
    logical true
      (infix_op relational tok_eq
        (infix_op multiplicative tok_multiply (infix_op additive tok_add one one) one) (minus one))
      (inverse zeroth)

print-sample : print sample ≡ codes " ( 1 + 1 ) * 1 == - 1 && ! 0"
unfolding print wrap precedence operator_text logical_text
print-sample = refl

digit_text : (c : ℕ) → c ∷ [] ≢ []
digit_text c e = ground arith

one-IsWritable : IsWritable one
one-IsWritable = (digit_text 49, (unfold is_digit in refl, tt))

zeroth-IsWritable : IsWritable zeroth
zeroth-IsWritable = (digit_text 48, (unfold is_digit in refl, tt))

by_zero-IsWritable : IsWritable by_zero
by_zero-IsWritable = (unfold is_operator in refl, one-IsWritable, zeroth-IsWritable)

sample-IsWritable : IsWritable sample
sample-IsWritable = (
  (
    unfold is_operator in refl,
    (
      unfold is_operator in refl,
      (unfold is_operator in refl, one-IsWritable, one-IsWritable),
      one-IsWritable,
    ),
    one-IsWritable,
  ),
  zeroth-IsWritable,
)

rpm_expr-print_example :
    (rpm_expr_bool_flags plain_env (print sample)
      ≡ next (meaning plain_env false sample) (λ v. done (is_true v)))
    × (rpm_expr_str_flags plain_env (print sample)
        ≡ next (meaning plain_env false sample) (λ v. done (value_text plain_env v)))
rpm_expr-print_example = rpm_expr-print plain_env sample refl sample-IsWritable

one-value : parse_expr plain_env (print one) ≡ done (integer 1)
one-value = parse_expr-print plain_env one refl one-IsWritable ∙ (unfold eval in refl)

rpm_expr-type_example : tree_type one ≡ some (type_of (integer 1))
rpm_expr-type_example = rpm_expr-type plain_env one (integer 1) refl one-IsWritable one-value

by_zero-type : tree_type by_zero ≡ some (type_of (integer 1))
by_zero-type = unfold tree_type type_of then2 infix_type in refl

-- 1 || 1 / 0
rpm_expr-short_circuit_example :
    parse_expr plain_env (print (logical false one by_zero)) ≡ done (integer 1)
rpm_expr-short_circuit_example =
    rpm_expr-short_circuit plain_env false one by_zero (integer 1) refl
      (one-IsWritable, by_zero-IsWritable) by_zero-type one-value (unfold is_true in refl)

rpm_expr-terminates_example :
    (rpm_expr_bool_flags plain_env (codes "(1 +") ≢ out_of_fuel)
    × (rpm_expr_str_flags plain_env (codes "(1 +") ≢ out_of_fuel)
rpm_expr-terminates_example = rpm_expr-terminates plain_env (codes "(1 +")

-- 2147483647 and -1, whose difference is no int.
value_cmp-signed_example : value_cmp (integer 2147483647) (integer 4294967295) ≡ (
    if ltb (biased 2147483647) (biased 4294967295 + 2 ^ 31)
      && leb (biased 4294967295) (biased 2147483647 + 2 ^ 31)
    then order (biased 2147483647) (biased 4294967295)
    else order (biased 4294967295) (biased 2147483647))
value_cmp-signed_example = value_cmp-signed 2147483647 4294967295 (omega arith) (omega arith)

-- The largest int is not found to be greater than -1.
greater_fails : value_cmp (integer 2147483647) (integer 4294967295) ≡ Ordering.lt
unfolding value_cmp is_negative
greater_fails = refl

-- The smallest int divided by -1 traps.
smallest_traps : divide_int (2 ^ 31) (2 ^ 32 - 1) ≡ fault
unfolding divide_int
smallest_traps = refl

-- 1 - 1 - 1 is from left to right, the value -1.
left_to_right : parse plain_env 40 (codes "1-1-1") ≡ done (integer 4294967295)
unfolding parse at_eof read rd_token next of_option lex lex_value lex_integer is_space is_digit
    token_end ends_integer get_valuebuf up_to wellformed_integer valued token is_operator do_ternary
    do_logical logical_loop do_infix infix_loop do_operand do_primary primary_step infix_step
    logical_step ternary_step literal logical_operator is_cond is_eof apply same_type type_of
    is_type apply_add_subtract
left_to_right = refl

precedence_run : parse plain_env 40 (codes "1+2*3==7") ≡ done (integer 1)
unfolding parse at_eof read rd_token next of_option lex lex_value lex_integer is_space is_digit
    token_end ends_integer get_valuebuf up_to wellformed_integer valued token is_operator do_ternary
    do_logical logical_loop do_infix infix_loop do_operand do_primary primary_step infix_step
    logical_step ternary_step literal logical_operator is_cond is_eof apply same_type type_of
    is_type apply_add_subtract apply_multiply_divide only_two starts_with behind holds value_cmp
    truth
precedence_run = refl
