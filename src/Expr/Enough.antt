-- ===== src/Expr/Enough.antt =====
-- How much fuel the calls of the descent in rpmio/expression.cc get, by what is left to be read: 12 for
-- each character, since each call reads a token or is one of the nine levels above a call that does.
pub mod Steps
use rpm.Base.{
  ℕ, suc, ◌+◌, ◌*◌, ◌-◌, ◌^◌, ◌≤◌, ◌<◌, ◌≡◌, refl, Bool, true, false, not, ◌&&◌, ◌||◌, some, ◌==◌,
  length, arith, if◌then◌else◌, Bool-cases, Option-cases, inl, inr,
}
use rpm.Expr.{
  Value, integer, text, Outcome, done, failed, fault, out_of_fuel, next, Env, boolify, same_type,
  Level, relational, additive, multiplicative, is_operator, apply, apply_multiply_divide,
  apply_add_subtract, divide_int, Token, tok_eof, tok_add, tok_minus, tok_multiply, tok_divide,
}
use rpm.Expr.Lexer.{ParseState, rd_token}
use rpm.Expr.Parser.{
  Parser, with_discard, is_close, is_comma, is_cond, is_alt, is_eof, logical_operator, infix_step,
  choose, short_circuits, logical_step, ternary_alt, ternary_step, do_ternary, do_logical,
  logical_loop, do_infix, infix_loop, do_operand, do_primary, do_arguments,
}
use rpm.Expr.Within.{Within, Within-next, Within-more}
use rpm.Expr.Consumes.{weight, token_weight, rd_token-Within, if-Within}

-- What is left behind a result.
unfoldable pub left : {A : Type 0} → A × ParseState → ℕ
left (a, state) = weight state

-- What is left behind an expression, which has at least one token.
unfoldable pub consumed : {A : Type 0} → A × ParseState → ℕ
unfolding left
consumed r = suc (left r)

-- Fuel of 12 for each character or token and `c` more is enough for a call that reads a token at least.
abbrev pub Enough : (ℕ → Parser Value) → ℕ → ℕ → Type 0
Enough p c f =
    (state : ParseState) → 12 * weight state + c ≤ f → Within consumed (weight state) (p f state)

abbrev pub EnoughLoop : (ℕ → Value × ParseState → Outcome (Value × ParseState)) → ℕ → Type 0
EnoughLoop p f =
    (v : Value) (state : ParseState)
    → 12 * weight state + 1 ≤ f
    → Within left (weight state) (p f (v, state))

unfoldable pub operand_calls : Level → ℕ
operand_calls relational = 6
operand_calls additive = 4
operand_calls multiplicative = 2

pub operand_calls-bounds : (lv : Level) → (2 ≤ operand_calls lv) × (operand_calls lv ≤ 6)
unfolding operand_calls
operand_calls-bounds relational = (omega arith, omega arith)
operand_calls-bounds additive = (omega arith, omega arith)
operand_calls-bounds multiplicative = (omega arith, omega arith)

pub record AllEnough (env : Env) (f : ℕ) : Type 0 where
  pub ternary : Enough (do_ternary env) 9 f
  pub logical : Enough (do_logical env) 8 f
  pub level_call : (lv : Level) → Enough (λ g. do_infix env g lv) (operand_calls lv + 1) f
  pub operand : (lv : Level) → Enough (λ g. do_operand env g lv) (operand_calls lv) f
  pub primary : Enough (do_primary env) 1 f
  pub logical_rounds : (old : Bool) → EnoughLoop (λ g. logical_loop env g old) f
  pub infix_rounds : (lv : Level) → EnoughLoop (λ g. infix_loop env g lv) f
  pub arguments :
      (state : ParseState)
      → 12 * weight state + 10 ≤ f
      → Within left (weight state) (do_arguments env f state)

-- A token that is not the last one is behind the weight of what is read.
weight-token :
    (state : ParseState) → is_eof state.next_token ≡ false → weight state ≡ suc (length state.p)
unfolding weight token_weight
weight-token state h = rw h (omega arith)

-- A call behind a token.
pub token-then :
    {A : Type 0} (env : Env) (state : ParseState) (size : A → ℕ) (g : ParseState → Outcome A)
    → is_eof state.next_token ≡ false
    → ((s : ParseState) → weight s < weight state → Within size (weight state) (g s))
    → Within size (weight state) (next (rd_token env state) g)
token-then env state size g h k =
    Within-next weight size (length state.p) (weight state) (rd_token env state) g
      (rd_token-Within env state) (λ s l. k s (omega (arith, weight-token state h)))

divide_int-Within : (i1 i2 : ℕ) → Within (λ v. 0) 0 (divide_int i1 i2)
unfolding divide_int
divide_int-Within i1 i2 =
    if-Within (λ v. 0) 0 (i1 == 2 ^ 31 && i2 == 2 ^ 32 - 1) fault _ tt (omega arith)

multiply_divide-Within :
    (d : Bool) (op : Token) (v1 v2 : Value) → Within (λ v. 0) 0 (apply_multiply_divide d op v1 v2)
unfolding apply_multiply_divide
multiply_divide-Within d tok_multiply (integer i1) (integer i2) =
    if-Within (λ v. 0) 0 d _ _ (omega arith) (omega arith)
multiply_divide-Within d tok_divide (integer i1) (integer i2) =
    if-Within (λ v. 0) 0 d _ _ (omega arith)
      (if-Within (λ v. 0) 0 (i2 == 0) failed _ tt (divide_int-Within i1 i2))
multiply_divide-Within d _ v1 v2 = tt

add_subtract-Within : (op : Token) (v1 v2 : Value) → Within (λ v. 0) 0 (apply_add_subtract op v1 v2)
unfolding apply_add_subtract
add_subtract-Within tok_add (integer i1) (integer i2) = omega arith
add_subtract-Within tok_minus (integer i1) (integer i2) = omega arith
add_subtract-Within tok_add (text s1) (text s2) = omega arith
add_subtract-Within _ v1 v2 = tt

apply-Within :
    (lv : Level) (d : Bool) (op : Token) (v1 v2 : Value) → Within (λ v. 0) 0 (apply lv d op v1 v2)
unfolding apply
apply-Within multiplicative d op v1 v2 =
    if-Within (λ v. 0) 0 (same_type v1 v2) _ failed (multiply_divide-Within d op v1 v2) tt
apply-Within additive d op v1 v2 =
    if-Within (λ v. 0) 0 (same_type v1 v2) _ failed (add_subtract-Within op v1 v2) tt
apply-Within relational d op v1 v2 =
    if-Within (λ v. 0) 0 (same_type v1 v2) _ failed (omega arith) tt

is_operator-eof : (lv : Level) (tok : Token) → is_operator lv tok ≡ true → is_eof tok ≡ false
unfolding is_operator is_eof
is_operator-eof relational tok_eof h = ground arith
is_operator-eof additive tok_eof h = ground arith
is_operator-eof multiplicative tok_eof h = ground arith
is_operator-eof lv _ h = refl

pub infix_loop-step :
    (env : Env) (f : ℕ) (lv : Level)
    → AllEnough env f
    → EnoughLoop (λ g. infix_loop env g lv) (suc f)
unfolding infix_loop infix_step
infix_loop-step env f lv h v1 state l = elim (Bool-cases (is_operator lv state.next_token)) [
  | inl e ↦
      rw (infix_step, e)
        (token-then env state left _ (is_operator-eof lv state.next_token e) (λ s k.
          Within-next consumed left (weight s) (weight state) (do_operand env f lv s) _
            (h.operand lv s (omega (arith, operand_calls-bounds lv)))
            (λ (v2, t) k'.
              Within-next (λ v. 0) left 0 (weight state) (apply lv t.discard state.next_token v1 v2)
                _ (apply-Within lv t.discard state.next_token v1 v2)
                (λ v k''.
                  Within-more left (weight t) (weight state) _ (unfold consumed left in omega arith)
                    (h.infix_rounds lv v t (unfold consumed left in omega arith))))))
  | inr e ↦ rw (infix_step, e) (unfold left in omega arith)
]
