-- ===== src/Expr/Terminates.antt =====
-- The fuel of `doPrimary` and `doFunction` of rpmio/expression.cc, and of the two entry points.
use rpm.Base.{
  ℕ, zero, suc, ◌+◌, ◌*◌, ◌≤◌, ◌<◌, ◌≡◌, ◌≢◌, refl, Bool, false, none, List, ◌∷◌, length, drop,
  Bytes, arith, Bool-cases, inl, inr,
}
use rpm.Expr.{
  Value, integer, text, version, Outcome, done, failed, fault, out_of_fuel, next, of_option, Env,
  boolify, Token, tok_eof, tok_integer, tok_string, tok_minus, tok_open_p, tok_not, tok_function,
}
use rpm.Expr.Lexer.{ParseState, rd_token}
use rpm.Expr.Parser.{
  is_close, is_comma, is_eof, is_lua, are_passed, do_lua_function, call_function, function_name,
  do_function, more_arguments, closed, parenthesised, literal, negated, inverted, primary_step,
  do_ternary, do_primary, do_arguments, at_eof, parse, parse_expr, rpm_expr_bool_flags,
  rpm_expr_str_flags, value_text,
}
use rpm.Expr.Within.{Within, Within-next, Within-more}
use rpm.Expr.Consumes.{weight, rd_token-Within, of_option-Within, if-Within}
use rpm.Expr.Enough.{left, consumed, AllEnough, token-then, infix_loop-step, operand_calls-bounds}
use rpm.Expr.Enough.Steps.{
  comma-eof, logical_loop-step, infix-step, logical-step, operand-step, ternary-step,
}

-- The token behind an expression is read.
last-Within :
    {A : Type 0} (env : Env) (a : A) (state : ParseState) (n : ℕ)
    → weight state < n
    → Within consumed n (next (rd_token env state) (λ s. done (a, s)))
unfolding consumed left
last-Within env a state n l =
    Within-next weight consumed (length state.p) n (rd_token env state) _
      (rd_token-Within env state) (λ s k. unfold weight in omega arith)

closed-Within :
    (env : Env) (v : Value) (state : ParseState) (n : ℕ)
    → weight state < n
    → Within consumed n (closed env (v, state))
unfolding closed
closed-Within env v state n l =
    if-Within consumed n (is_close state.next_token) _ failed (last-Within env v state n l) tt

do_lua-Within :
    (env : Env) (d : Bool) (name : Bytes) (args : List Value)
    → Within (λ v. 0) 0 (do_lua_function env d name args)
unfolding do_lua_function
do_lua-Within env d name args =
    if-Within (λ v. 0) 0 d _ _ (omega arith)
      (if-Within (λ v. 0) 0 (are_passed args) _ failed
        (Within-next (λ s. 0) (λ v. 0) 0 0 (of_option (env.call_lua name args)) _
          (of_option-Within (env.call_lua name args)) (λ s l. omega arith))
        tt)

call_function-Within :
    (env : Env) (name : Bytes) (args : List Value) (state : ParseState) (n : ℕ)
    → weight state < n
    → Within consumed n (call_function env name args state)
unfolding call_function
call_function-Within env name args state n l =
    Within-next weight consumed (length state.p) n (rd_token env state) _
      (rd_token-Within env state)
      (λ s k.
        if-Within consumed n (is_lua name) _ failed
          (Within-next (λ v. 0) consumed 0 n (do_lua_function env s.discard (drop 4 name) args)
            (λ v. done (v, s)) (do_lua-Within env s.discard (drop 4 name) args)
            (λ v k'. unfold consumed left weight in omega arith))
          tt)

literal-Within :
    (env : Env) (state : ParseState)
    → is_eof state.next_token ≡ false
    → Within consumed (weight state) (literal env state)
unfolding literal
literal-Within env state h =
    Within-next (λ v. 0) consumed 0 (weight state) (of_option state.token_value) _
      (of_option-Within state.token_value)
      (λ v k.
        token-then env state consumed (λ s. done (v, s)) h
          (λ s l. unfold consumed left in omega arith))

negated-Within :
    (env : Env) (n : ℕ) (r : Value × ParseState)
    → consumed r ≤ n
    → Within consumed n (negated env r)
unfolding negated
negated-Within env n (integer i, s) l = unfold consumed left in l
negated-Within env n (text x, s) l = tt
negated-Within env n (version x, s) l = tt

inverted-Within :
    (env : Env) (n : ℕ) (r : Value × ParseState)
    → consumed r ≤ n
    → Within consumed n (inverted env r)
unfolding inverted
inverted-Within env n (v, s) l = unfold consumed left in l

primary_at :
    (env : Env) (f n : ℕ) (tok : Token) (state : ParseState)
    → AllEnough env f
    → state.next_token ≡ tok
    → 12 * weight state + 1 ≤ suc f
    → weight state ≤ n
    → Within consumed n
        (primary_step env (do_primary env f) (do_ternary env f) (do_arguments env f) state)
unfolding primary_step is_eof
primary_at env f n tok_function state h e l m =
    rw (primary_step, e)
      (Within-more consumed (weight state) n _ m (
        unfold do_function in
        token-then env state consumed _ (rw e refl) (λ s k.
          Within-next left consumed (weight s) (weight state) (do_arguments env f s) _
            (h.arguments s (omega arith))
            (λ (args, t) k'.
              call_function-Within env (function_name env state.token_value) args t (weight state)
                (unfold left in omega arith)))))
primary_at env f n tok_open_p state h e l m =
    rw (primary_step, e)
      (Within-more consumed (weight state) n _ m (
        unfold parenthesised in
        token-then env state consumed _ (rw e refl) (λ s k.
          Within-next consumed consumed (weight s) (weight state) (do_ternary env f s) (closed env)
            (h.ternary s (omega arith))
            (λ (v, t) k'.
              closed-Within env v t (weight state) (unfold consumed left in omega arith)))))
primary_at env f n tok_integer state h e l m =
    rw (primary_step, e)
      (Within-more consumed (weight state) n _ m (literal-Within env state (rw e refl)))
primary_at env f n tok_string state h e l m =
    rw (primary_step, e)
      (Within-more consumed (weight state) n _ m (literal-Within env state (rw e refl)))
primary_at env f n tok_minus state h e l m =
    rw (primary_step, e)
      (Within-more consumed (weight state) n _ m (
        token-then env state consumed _ (rw e refl) (λ s k.
          Within-next consumed consumed (weight s) (weight state) (do_primary env f s) (negated env)
            (h.primary s (omega arith))
            (λ r k'. negated-Within env (weight state) r (omega arith)))))
primary_at env f n tok_not state h e l m =
    rw (primary_step, e)
      (Within-more consumed (weight state) n _ m (
        token-then env state consumed _ (rw e refl) (λ s k.
          Within-next consumed consumed (weight s) (weight state) (do_primary env f s)
            (inverted env) (h.primary s (omega arith))
            (λ r k'. inverted-Within env (weight state) r (omega arith)))))
primary_at env f n _ state h e l m = rw (primary_step, e) tt

more_arguments-Within :
    (env : Env) (f n : ℕ) (v : Value) (state : ParseState)
    → AllEnough env f
    → 12 * weight state + 10 ≤ f
    → weight state ≤ n
    → Within left n (more_arguments env (do_arguments env f) v state)
unfolding more_arguments
more_arguments-Within env f n v state h l m =
    if-Within left n (is_close state.next_token) _ _ (unfold left in m)
      (elim (Bool-cases (is_comma state.next_token)) [
        | inl e ↦ rw e (
            Within-more left (weight state) n _ m (
              token-then env state left _ (comma-eof state.next_token e) (λ s k.
                if-Within left (weight state) (is_close s.next_token) failed _ tt (
                  Within-next left left (weight s) (weight state) (do_arguments env f s)
                    (λ (vs, t). done (v ∷ vs, t)) (h.arguments s (omega arith))
                    (λ (vs, t) k'. unfold left in omega arith)))))
        | inr e ↦ rw e tt
      ])

arguments-step :
    (env : Env) (f : ℕ) (state : ParseState)
    → AllEnough env f
    → 12 * weight state + 10 ≤ suc f
    → Within left (weight state) (do_arguments env (suc f) state)
unfolding do_arguments
arguments-step env f state h l = elim (Bool-cases (is_close state.next_token)) [
  | inl e ↦ rw (do_arguments, e) (unfold left in omega arith)
  | inr e ↦
      rw (do_arguments, e)
        (Within-next consumed left (weight state) (weight state) (do_ternary env f state) _
          (h.ternary state (omega arith))
          (λ (v, t) k.
            more_arguments-Within env f (weight state) v t h (unfold consumed left in omega arith)
              (unfold consumed left in omega arith)))
]

all-enough : (env : Env) (f : ℕ) → AllEnough env f
unfolding do_primary
all-enough env zero = record {
  ternary = λ state l. absurd (omega arith);
  logical = λ state l. absurd (omega arith);
  level_call = λ lv state l. absurd (omega arith);
  operand = λ lv state l. absurd (omega (arith, operand_calls-bounds lv));
  primary = λ state l. absurd (omega arith);
  logical_rounds = λ old v state l. absurd (omega arith);
  infix_rounds = λ lv v state l. absurd (omega arith);
  arguments = λ state l. absurd (omega arith);
}
all-enough env (suc f) =
    let h = all-enough env f in
    record {
      ternary = ternary-step env f h;
      logical = logical-step env f h;
      level_call = λ lv. infix-step env f lv h;
      operand = λ lv. operand-step env f lv h;
      primary =
          λ state l. primary_at env f (weight state) state.next_token state h refl l (omega arith);
      logical_rounds = λ old. logical_loop-step env f old h;
      infix_rounds = λ lv. infix_loop-step env f lv h;
      arguments = λ state l. arguments-step env f state h l;
    }

at_eof-Within : (env : Env) (r : Value × ParseState) → Within (λ v. 0) 0 (at_eof env r)
unfolding at_eof
at_eof-Within env (v, s) = if-Within (λ v. 0) 0 (is_eof s.next_token) _ failed (omega arith) tt

parse_expr-Within : (env : Env) (expr : Bytes) → Within (λ v. 0) 0 (parse_expr env expr)
unfolding parse_expr parse
parse_expr-Within env expr =
    let f = 12 * length expr + 24 in
    Within-next weight (λ v. 0) (length expr) 0
      (rd_token env
        (record { p = expr; next_token = tok_eof; token_value = none; discard = false }))
      _
      (rd_token-Within env
        (record { p = expr; next_token = tok_eof; token_value = none; discard = false }))
      (λ s l.
        Within-next consumed (λ v. 0) (weight s) 0 (do_ternary env f s) (at_eof env)
          ((all-enough env f).ternary s (omega arith)) (λ r k. at_eof-Within env r))

returned : (o : Outcome Value) → Within (λ v. 0) 0 o → o ≢ out_of_fuel
returned (done v) h e = ground arith
returned failed h e = ground arith
returned fault h e = ground arith
returned out_of_fuel h e = h

next-returned :
    {A : Type 0} (o : Outcome Value) (f : Value → A)
    → o ≢ out_of_fuel
    → next o (λ v. done (f v)) ≢ out_of_fuel
unfolding next
next-returned (done v) f h e = ground arith
next-returned failed f h e = ground arith
next-returned fault f h e = ground arith
next-returned out_of_fuel f h e = h refl

-- The fuel of the two calls is enough for each text: each returns, with a value or without.
pub rpm_expr-terminates :
    (env : Env) (expr : Bytes)
    → (rpm_expr_bool_flags env expr ≢ out_of_fuel) × (rpm_expr_str_flags env expr ≢ out_of_fuel)
unfolding rpm_expr_bool_flags rpm_expr_str_flags
rpm_expr-terminates env expr =
    let h = returned (parse_expr env expr) (parse_expr-Within env expr) in
    (
      next-returned (parse_expr env expr) boolify h,
      next-returned (parse_expr env expr) (value_text env) h,
    )
