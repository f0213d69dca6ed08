-- ===== src/Expr/Enough/Steps.antt =====
-- The fuel of `doLogical` and `doTernary` of rpmio/expression.cc, and of a level of infix operators.
use rpm.Base.{
  ℕ, suc, ◌+◌, ◌*◌, ◌≤◌, ◌<◌, ◌≡◌, refl, Bool, true, false, not, ◌||◌, some, arith, if◌then◌else◌,
  Bool-cases, Option-cases, inl, inr,
}
use rpm.Expr.{
  Value, Outcome, done, failed, fault, out_of_fuel, next, Env, boolify, same_type, Level,
  relational, additive, multiplicative, Token, tok_eof,
}
use rpm.Expr.Lexer.{ParseState, rd_token}
use rpm.Expr.Parser.{
  with_discard, is_close, is_comma, is_cond, is_alt, is_eof, logical_operator, choose,
  short_circuits, logical_step, ternary_alt, ternary_step, do_ternary, do_logical, logical_loop,
  do_infix, infix_loop, do_operand,
}
use rpm.Expr.Within.{Within, Within-next, Within-more}
use rpm.Expr.Consumes.{weight, if-Within}
use rpm.Expr.Enough.{
  AllEnough, Enough, EnoughLoop, consumed, left, operand_calls, operand_calls-bounds, token-then,
}

choose-Within :
    (env : Env) (is_and : Bool) (v1 v2 : Value) → Within (λ v. 0) 0 (choose env is_and v1 v2)
unfolding choose
choose-Within env is_and v1 v2 = if-Within (λ v. 0) 0 (same_type v1 v2) _ failed (omega arith) tt

logical_operator-eof : (tok : Token) (b : Bool) → logical_operator tok ≡ some b → is_eof tok ≡ false
unfolding logical_operator is_eof
logical_operator-eof tok_eof b h = ground arith
logical_operator-eof _ b h = refl

weight-with_discard : (state : ParseState) (d : Bool) → weight (with_discard state d) ≡ weight state
unfolding weight with_discard
weight-with_discard state d = refl

-- The same, when the next token is read with a flag of its own.
flagged-then :
    {A : Type 0} (env : Env) (state : ParseState) (d : Bool) (size : A → ℕ)
    (g : ParseState → Outcome A)
    → is_eof state.next_token ≡ false
    → ((s : ParseState) → weight s < weight state → Within size (weight state) (g s))
    → Within size (weight state) (next (rd_token env (with_discard state d)) g)
unfolding with_discard weight
flagged-then env state d size g h k = token-then env (with_discard state d) size g h k

pub logical_loop-step :
    (env : Env) (f : ℕ) (old : Bool)
    → AllEnough env f
    → EnoughLoop (λ g. logical_loop env g old) (suc f)
unfolding logical_loop logical_step
logical_loop-step env f old h v1 state l = elim (Option-cases (logical_operator state.next_token)) [
  | inl e ↦ rw (logical_step, e) (unfold left in omega arith)
  | inr (is_and, e) ↦
      rw (logical_step, e)
        (flagged-then env state (state.discard || short_circuits env is_and v1) left _
          (logical_operator-eof state.next_token is_and e)
          (λ s k.
            Within-next consumed left (weight s) (weight state) (do_infix env f relational s) _
              (h.level_call relational s (unfold operand_calls in omega arith))
              (λ (v2, t) k'.
                Within-next (λ v. 0) left 0 (weight state) (choose env is_and v1 v2) _
                  (choose-Within env is_and v1 v2)
                  (λ v k''.
                    Within-more left (weight t) (weight state) _
                      (unfold consumed left in omega arith)
                      (rw⁻¹ (weight-with_discard t old) (
                        h.logical_rounds old v (with_discard t old) (
                          rw (weight-with_discard t old)
                            (unfold consumed left in omega arith))))))))
]

pub left-consumed :
    {A : Type 0} (n m : ℕ) (o : Outcome (A × ParseState))
    → n < m
    → Within left n o
    → Within consumed m o
unfolding consumed
left-consumed n m (done r) l h = omega arith
left-consumed n m failed l h = tt
left-consumed n m fault l h = tt
left-consumed n m out_of_fuel l h = h

pub infix-step :
    (env : Env) (f : ℕ) (lv : Level)
    → AllEnough env f
    → Enough (λ g. do_infix env g lv) (operand_calls lv + 1) (suc f)
unfolding do_infix
infix-step env f lv h state l =
    Within-next consumed consumed (weight state) (weight state) (do_operand env f lv state)
      (infix_loop env f lv) (h.operand lv state (omega arith))
      (λ (v, t) k.
        left-consumed (weight t) (weight state) (infix_loop env f lv (v, t))
          (unfold consumed left in omega arith)
          (h.infix_rounds lv v t (unfold consumed left in omega (arith, operand_calls-bounds lv))))

pub logical-step : (env : Env) (f : ℕ) → AllEnough env f → Enough (do_logical env) 8 (suc f)
unfolding do_logical
logical-step env f h state l =
    Within-next consumed consumed (weight state) (weight state) (do_infix env f relational state)
      (logical_loop env f state.discard)
      (h.level_call relational state (unfold operand_calls in omega arith))
      (λ (v, t) k.
        left-consumed (weight t) (weight state) (logical_loop env f state.discard (v, t))
          (unfold consumed left in omega arith)
          (h.logical_rounds state.discard v t (unfold consumed left in omega arith)))

pub operand-step :
    (env : Env) (f : ℕ) (lv : Level)
    → AllEnough env f
    → Enough (λ g. do_operand env g lv) (operand_calls lv) (suc f)
unfolding do_operand operand_calls
operand-step env f relational h state l =
    h.level_call additive state (unfold operand_calls in omega arith)
operand-step env f additive h state l =
    h.level_call multiplicative state (unfold operand_calls in omega arith)
operand-step env f multiplicative h state l = h.primary state (omega arith)

cond-eof : (tok : Token) → is_cond tok ≡ true → is_eof tok ≡ false
unfolding is_cond is_eof
cond-eof tok_eof h = ground arith
cond-eof _ h = refl

alt-eof : (tok : Token) → is_alt tok ≡ true → is_eof tok ≡ false
unfolding is_alt is_eof
alt-eof tok_eof h = ground arith
alt-eof _ h = refl

pub comma-eof : (tok : Token) → is_comma tok ≡ true → is_eof tok ≡ false
unfolding is_comma is_eof
comma-eof tok_eof h = ground arith
comma-eof _ h = refl

pub close-eof : (tok : Token) → is_close tok ≡ true → is_eof tok ≡ false
unfolding is_close is_eof
close-eof tok_eof h = ground arith
close-eof _ h = refl

-- A result and a state, unless the types differ.
same_type-Within :
    (n : ℕ) (b : Bool) (v : Value) (state : ParseState)
    → weight state < n
    → Within consumed n
        (if◌then◌else◌ {A = Outcome (Value × ParseState)} b (done (v, state)) failed)
unfolding consumed left
same_type-Within n true v state h = omega arith
same_type-Within n false v state h = tt

ternary_alt-Within :
    (env : Env) (f n : ℕ) (old cond : Bool) (v1 : Value) (state : ParseState)
    → AllEnough env f
    → 12 * weight state + 9 ≤ f
    → weight state < n
    → Within consumed n (ternary_alt env (do_ternary env f) old cond v1 state)
unfolding ternary_alt
ternary_alt-Within env f n old cond v1 state h l m = elim (Bool-cases (is_alt state.next_token)) [
  | inl e ↦
      rw (ternary_alt, e)
        (Within-more consumed (weight state) n _ (omega arith) (
          flagged-then env state (old || cond) consumed _ (alt-eof state.next_token e) (λ s k.
            Within-next consumed consumed (weight s) (weight state) (do_ternary env f s) _
              (h.ternary s (omega arith))
              (λ (v2, t) k'.
                same_type-Within (weight state) (same_type v1 v2) (if cond then v1 else v2)
                  (with_discard t old)
                  (rw (weight-with_discard t old) (unfold consumed left in omega arith))))))
  | inr e ↦ rw (ternary_alt, e) tt
]

ternary_step-Within :
    (env : Env) (f n : ℕ) (old : Bool) (v : Value) (state : ParseState)
    → AllEnough env f
    → 12 * weight state + 9 ≤ f
    → weight state < n
    → Within consumed n (ternary_step env (do_ternary env f) old (v, state))
unfolding ternary_step
ternary_step-Within env f n old v state h l m = elim (Bool-cases (is_cond state.next_token)) [
  | inl e ↦
      rw (ternary_step, e)
        (Within-more consumed (weight state) n _ (omega arith) (
          flagged-then env state (state.discard || not (boolify v)) consumed _
            (cond-eof state.next_token e)
            (λ s k.
              Within-next consumed consumed (weight s) (weight state) (do_ternary env f s) _
                (h.ternary s (omega arith))
                (λ (v1, t) k'.
                  ternary_alt-Within env f (weight state) old (boolify v) v1 t h
                    (unfold consumed left in omega arith) (unfold consumed left in omega arith)))))
  | inr e ↦ rw (ternary_step, e) (unfold consumed left in omega arith)
]

pub ternary-step : (env : Env) (f : ℕ) → AllEnough env f → Enough (do_ternary env) 9 (suc f)
unfolding do_ternary
ternary-step env f h state l =
    Within-next consumed consumed (weight state) (weight state) (do_logical env f state)
      (ternary_step env (do_ternary env f) state.discard) (h.logical state (omega arith))
      (λ (v, t) k.
        ternary_step-Within env f (weight state) state.discard v t h
          (unfold consumed left in omega arith) (unfold consumed left in omega arith))
