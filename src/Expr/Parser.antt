-- ===== src/Expr/Parser.antt =====
-- The recursive descent of rpmio/expression.cc. Each call costs a unit of fuel; the calls of other
-- levels are passed to the steps as functions.
use rpm.Base.{
  ℕ, zero, suc, ◌+◌, ◌*◌, Bool, true, false, not, ◌&&◌, ◌||◌, Option, none, some, List, [], ◌∷◌,
  ◌==◌, length, drop, Bytes, if◌then◌else◌,
}
use rpm.Version.Evr.{rpmver_evr}
use rpm.Expr.{
  Value, integer, text, version, Outcome, done, failed, out_of_fuel, next, of_option, Env, boolify,
  truth, negate_int, same_type, Level, relational, additive, multiplicative, is_operator, apply,
  Token, tok_eof, tok_integer, tok_string, tok_minus, tok_open_p, tok_close_p, tok_not,
  tok_logical_and, tok_logical_or, tok_ternary_cond, tok_ternary_alt, tok_comma, tok_function,
}
use rpm.Expr.Lexer.{ParseState, rd_token}

abbrev pub Parser : Type 0 → Type 0
Parser A = ParseState → Outcome (A × ParseState)

unfoldable pub with_discard : ParseState → Bool → ParseState
with_discard state discard = record state { discard = discard }

unfoldable pub is_close : Token → Bool
is_close tok_close_p = true
is_close _ = false

unfoldable pub is_comma : Token → Bool
is_comma tok_comma = true
is_comma _ = false

unfoldable pub is_cond : Token → Bool
is_cond tok_ternary_cond = true
is_cond _ = false

unfoldable pub is_alt : Token → Bool
is_alt tok_ternary_alt = true
is_alt _ = false

unfoldable pub is_eof : Token → Bool
is_eof tok_eof = true
is_eof _ = false

-- `TOK_LOGICAL_AND` is true, `TOK_LOGICAL_OR` false.
unfoldable pub logical_operator : Token → Option Bool
logical_operator tok_logical_and = some true
logical_operator tok_logical_or = some false
logical_operator _ = none

unfoldable pub is_lua : Bytes → Bool
is_lua (a ∷ b ∷ c ∷ d ∷ s) = a == b'l' && b == b'u' && c == b'a' && d == b':'
is_lua _ = false

-- `doLuaFunction` refuses versions.
unfoldable pub are_passed : List Value → Bool
are_passed [] = true
are_passed (version v ∷ vs) = false
are_passed (integer i ∷ vs) = are_passed vs
are_passed (text s ∷ vs) = are_passed vs

module _ (env : Env) where
  -- `doLuaFunction`
  unfoldable pub do_lua_function : Bool → Bytes → List Value → Outcome Value
  unfolding are_passed
  do_lua_function discard name args =
      if discard
      then done (text [])
      else if are_passed args
      then next (of_option (env.call_lua name args)) (λ s. done (text s))
      else failed

  -- The end of `doFunction`: the token behind the arguments, and the call.
  unfoldable pub call_function : Bytes → List Value → Parser Value
  unfolding is_lua do_lua_function
  call_function name args state = next (rd_token env state) (λ s.
      if is_lua name
      then next (do_lua_function s.discard (drop 4 name) args) (λ v. done (v, s))
      else failed)

  unfoldable pub function_name : Option Value → Bytes
  function_name (some (text name)) = name
  function_name _ = []

  -- `doFunction`, with the reading of its arguments.
  unfoldable pub do_function : Parser (List Value) → Parser Value
  unfolding function_name call_function
  do_function do_args state =
      let name = function_name state.token_value in
      next (rd_token env state) (λ s. next (do_args s) (λ (args, t). call_function name args t))

  -- Behind an argument.
  unfoldable pub more_arguments : Parser (List Value) → Value → Parser (List Value)
  more_arguments do_args v state =
      if is_close state.next_token
      then done (v ∷ [], state)
      else if is_comma state.next_token
      then next (rd_token env state) (λ s.
        if is_close s.next_token then failed else next (do_args s) (λ (vs, t). done (v ∷ vs, t)))
      else failed

  unfoldable pub closed : Value × ParseState → Outcome (Value × ParseState)
  unfolding is_close
  closed (v, state) =
      if is_close state.next_token then next (rd_token env state) (λ s. done (v, s)) else failed

  -- An expression in parentheses, behind the first one.
  unfoldable pub parenthesised : Parser Value → Parser Value
  unfolding closed
  parenthesised do_inner state = next (rd_token env state) (λ s. next (do_inner s) closed)

  -- An integer, a string or a version.
  unfoldable pub literal : Parser Value
  literal state =
      next (of_option state.token_value) (λ v. next (rd_token env state) (λ s. done (v, s)))

  unfoldable pub negated : Value × ParseState → Outcome (Value × ParseState)
  negated (integer i, s) = done (integer (negate_int i), s)
  negated _ = failed

  unfoldable pub inverted : Value × ParseState → Outcome (Value × ParseState)
  unfolding truth
  inverted (v, s) = done (truth (not (boolify v)), s)

  -- The switch of `doPrimary`.
  unfoldable pub primary_step : Parser Value → Parser Value → Parser (List Value) → Parser Value
  unfolding do_function parenthesised literal negated inverted
  primary_step do_self do_inner do_args state = elim state.next_token [
    | tok_function ↦ do_function do_args state
    | tok_open_p ↦ parenthesised do_inner state
    | tok_integer ↦ literal state
    | tok_string ↦ literal state
    | tok_minus ↦ next (rd_token env state) (λ s. next (do_self s) negated)
    | tok_not ↦ next (rd_token env state) (λ s. next (do_self s) inverted)
    | _ ↦ failed
  ]

  -- A round of the loop of `doMultiplyDivide`, `doAddSubtract` or `doRelational`.
  unfoldable pub infix_step :
      Parser Value
      → (Value × ParseState → Outcome (Value × ParseState))
      → Level
      → Value × ParseState
      → Outcome (Value × ParseState)
  unfolding is_operator apply
  infix_step do_operand go_on lv (v1, state) =
      if is_operator lv state.next_token
      then next (rd_token env state) (λ s.
        next (do_operand s)
          (λ (v2, t). next (apply lv t.discard state.next_token v1 v2) (λ v. go_on (v, t))))
      else done (v1, state)

  -- The value of `v1 && v2` or `v1 || v2`.
  unfoldable pub choose : Bool → Value → Value → Outcome Value
  unfolding same_type
  choose is_and v1 v2 =
      if same_type v1 v2
      then done (if (is_and && boolify v1) || (not is_and && not (boolify v1)) then v2 else v1)
      else failed

  -- Whether the second operand is discarded.
  unfoldable pub short_circuits : Bool → Value → Bool
  short_circuits is_and v1 = (is_and && not (boolify v1)) || (not is_and && boolify v1)

  -- A round of the loop of `doLogical`; `old` is `oldflags`.
  unfoldable pub logical_step :
      Parser Value
      → (Value × ParseState → Outcome (Value × ParseState))
      → Bool
      → Value × ParseState
      → Outcome (Value × ParseState)
  unfolding logical_operator choose short_circuits with_discard
  logical_step do_operand go_on old (v1, state) = elim (logical_operator state.next_token) [
    | none ↦ done (v1, state)
    | some is_and ↦
        next (rd_token env (with_discard state (state.discard || short_circuits is_and v1))) (λ s.
          next (do_operand s)
            (λ (v2, t). next (choose is_and v1 v2) (λ v. go_on (v, with_discard t old))))
  ]

  -- The second branch of `doTernary`.
  unfoldable pub ternary_alt : Parser Value → Bool → Bool → Value → Parser Value
  unfolding with_discard same_type
  ternary_alt do_self old cond v1 state =
      if is_alt state.next_token
      then next (rd_token env (with_discard state (old || cond))) (λ s. next (do_self s) (λ (v2, t).
        if same_type v1 v2 then done (if cond then v1 else v2, with_discard t old) else failed))
      else failed

  -- `doTernary` behind the condition.
  unfoldable pub ternary_step :
      Parser Value → Bool → Value × ParseState → Outcome (Value × ParseState)
  unfolding ternary_alt with_discard
  ternary_step do_self old (v, state) =
      if is_cond state.next_token
      then next (rd_token env (with_discard state (state.discard || not (boolify v))))
          (λ s. next (do_self s) (λ (v1, t). ternary_alt do_self old (boolify v) v1 t))
      else done (v, state)

  unfoldable mutual
    -- `doTernary`
    pub do_ternary : ℕ → Parser Value
    do_ternary zero state = out_of_fuel
    do_ternary (suc f) state = next (do_logical f state) (ternary_step (do_ternary f) state.discard)

    -- `doLogical`
    pub do_logical : ℕ → Parser Value
    do_logical zero state = out_of_fuel
    do_logical (suc f) state = next (do_infix f relational state) (logical_loop f state.discard)

    pub logical_loop : ℕ → Bool → Value × ParseState → Outcome (Value × ParseState)
    logical_loop zero old r = out_of_fuel
    logical_loop (suc f) old r = logical_step (do_infix f relational) (logical_loop f old) old r

    -- `doRelational`, `doAddSubtract` and `doMultiplyDivide`
    pub do_infix : ℕ → Level → Parser Value
    do_infix zero lv state = out_of_fuel
    do_infix (suc f) lv state = next (do_operand f lv state) (infix_loop f lv)

    pub infix_loop : ℕ → Level → Value × ParseState → Outcome (Value × ParseState)
    infix_loop zero lv r = out_of_fuel
    infix_loop (suc f) lv r = infix_step (do_operand f lv) (infix_loop f lv) lv r

    -- The level below.
    pub do_operand : ℕ → Level → Parser Value
    do_operand zero lv state = out_of_fuel
    do_operand (suc f) relational state = do_infix f additive state
    do_operand (suc f) additive state = do_infix f multiplicative state
    do_operand (suc f) multiplicative state = do_primary f state

    -- `doPrimary`
    pub do_primary : ℕ → Parser Value
    do_primary zero state = out_of_fuel
    do_primary (suc f) state = primary_step (do_primary f) (do_ternary f) (do_arguments f) state

    -- The loop of `doFunction` over the arguments.
    pub do_arguments : ℕ → Parser (List Value)
    do_arguments zero state = out_of_fuel
    do_arguments (suc f) state = elim (is_close state.next_token) [
      | true ↦ done ([], state)
      | false ↦ next (do_ternary f state) (λ (v, s). more_arguments (do_arguments f) v s)
    ]

  unfoldable pub at_eof : Value × ParseState → Outcome Value
  at_eof (v, state) = if is_eof state.next_token then done v else failed

  -- What `rpmExprBoolFlags` and `rpmExprStrFlags` have in common.
  unfoldable pub parse : ℕ → Bytes → Outcome Value
  unfolding at_eof
  parse fuel expr =
      next
        (rd_token env
          (record { p = expr; next_token = tok_eof; token_value = none; discard = false }))
        (λ s. next (do_ternary fuel s) at_eof)

  -- With enough fuel.
  unfoldable pub parse_expr : Bytes → Outcome Value
  parse_expr expr = parse (12 * length expr + 24) expr

  -- `rpmExprBoolFlags`
  unfoldable pub rpm_expr_bool_flags : Bytes → Outcome Bool
  rpm_expr_bool_flags expr = next (parse_expr expr) (λ v. done (boolify v))

  unfoldable pub value_text : Value → Bytes
  value_text (integer i) = env.print_int i
  value_text (text s) = s
  value_text (version v) = rpmver_evr v

  -- `rpmExprStrFlags`
  unfoldable pub rpm_expr_str_flags : Bytes → Outcome Bytes
  unfolding value_text
  rpm_expr_str_flags expr = next (parse_expr expr) (λ v. done (value_text v))
