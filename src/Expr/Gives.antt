-- ===== src/Expr/Gives.antt =====
-- The levels of the descent in rpmio/expression.cc, and how they rest on one another.
use rpm.Base.{
  ℕ, zero, suc, ◌+◌, ◌*◌, ◌≤◌, ◌<◌, ◌≡◌, refl, ap, ◌∙◌, Bool, true, false, none, arith, ◌==◌,
}
use rpm.Expr.{
  Value, Outcome, done, failed, fault, out_of_fuel, next, Env, Level, relational, additive,
  multiplicative, is_operator, Token, tok_eof, tok_add, tok_minus, tok_multiply, tok_divide, tok_eq,
  tok_neq, tok_lt, tok_le, tok_gt, tok_ge, tok_logical_and, tok_logical_or, tok_ternary_cond,
}
use rpm.Expr.Lexer.{ParseState}
use rpm.Expr.Parser.{
  Parser, do_ternary, do_logical, logical_loop, do_infix, infix_loop, do_operand, do_primary,
  is_cond, logical_operator, infix_step, logical_step, ternary_step,
}
use rpm.Expr.Syntax.{level}

pub next-done :
    {A B C : Type 0} (o : Outcome A) (f : A → B) (g : B → Outcome C)
    → next (next o (λ a. done (f a))) g ≡ next o (λ a. g (f a))
unfolding next
next-done (done a) f g = refl
next-done failed f g = refl
next-done fault f g = refl
next-done out_of_fuel f g = refl

pub next-next :
    {A B C : Type 0} (o : Outcome A) (f : A → Outcome B) (g : B → Outcome C)
    → next (next o f) g ≡ next o (λ a. next (f a) g)
unfolding next
next-next (done a) f g = refl
next-next failed f g = refl
next-next fault f g = refl
next-next out_of_fuel f g = refl

pub next-cong :
    {A B : Type 0} (o : Outcome A) (f g : A → Outcome B)
    → ((a : A) → f a ≡ g a)
    → next o f ≡ next o g
unfolding next
next-cong (done a) f g h = h a
next-cong failed f g h = refl
next-cong fault f g h = refl
next-cong out_of_fuel f g h = refl

-- The level whose loop takes a token, from 1 for '?' on; 0 is for the tokens that no loop takes.
unfoldable pub token_level : Token → ℕ
token_level tok_ternary_cond = 1
token_level tok_logical_and = 2
token_level tok_logical_or = 2
token_level tok_eq = 3
token_level tok_neq = 3
token_level tok_lt = 3
token_level tok_le = 3
token_level tok_gt = 3
token_level tok_ge = 3
token_level tok_add = 4
token_level tok_minus = 4
token_level tok_multiply = 5
token_level tok_divide = 5
token_level _ = 0

is_operator-level :
    (lv : Level) (tok : Token) → is_operator lv tok ≡ (token_level tok == level lv + 1)
unfolding token_level is_operator level
is_operator-level relational tok_eof = refl
is_operator-level relational _ = refl
is_operator-level additive tok_eof = refl
is_operator-level additive _ = refl
is_operator-level multiplicative tok_eof = refl
is_operator-level multiplicative _ = refl

pub is_operator-false :
    (lv : Level) (tok : Token) → token_level tok ≤ level lv → is_operator lv tok ≡ false
is_operator-false lv tok h = ground (arith, is_operator-level lv tok)

pub token_level-operator :
    (lv : Level) (tok : Token) → is_operator lv tok ≡ true → token_level tok ≡ level lv + 1
token_level-operator lv tok h = ground (arith, is_operator-level lv tok)

pub logical_operator-none :
    (env : Env) (tok : Token) → token_level tok ≤ 1 → logical_operator tok ≡ none
unfolding token_level logical_operator
logical_operator-none env tok_logical_and h = absurd (omega arith)
logical_operator-none env tok_logical_or h = absurd (omega arith)
logical_operator-none env _ h = refl

pub is_cond-false : (tok : Token) → token_level tok ≤ 0 → is_cond tok ≡ false
unfolding token_level is_cond
is_cond-false tok_ternary_cond h = absurd (omega arith)
is_cond-false _ h = refl

-- With fuel from `c` on, the call gives the value and leaves the state `to`.
unfoldable pub Gives : (ℕ → Parser Value) → ℕ → ParseState → Outcome Value → ParseState → Type 0
Gives p c state o to = (f : ℕ) → c ≤ f → p f state ≡ next o (λ v. done (v, to))

-- The parsers of the levels, for an operand of each.
unfoldable pub parser_at : Env → ℕ → ℕ → Parser Value
parser_at env zero f = do_ternary env f
parser_at env (suc zero) f = do_logical env f
parser_at env (suc (suc zero)) f = do_infix env f relational
parser_at env (suc (suc (suc zero))) f = do_operand env f relational
parser_at env (suc (suc (suc (suc zero)))) f = do_operand env f additive
parser_at env (suc (suc (suc (suc (suc k))))) f = do_primary env f

module _ (env : Env) where
  pub infix_loop-exit :
      (f : ℕ) (lv : Level) (v : Value) (to : ParseState)
      → 1 ≤ f
      → is_operator lv to.next_token ≡ false
      → infix_loop env f lv (v, to) ≡ done (v, to)
  unfolding infix_loop infix_step
  infix_loop-exit zero lv v to h e = absurd (omega arith)
  infix_loop-exit (suc f) lv v to h e = rw e refl

  pub logical_loop-exit :
      (f : ℕ) (old : Bool) (v : Value) (to : ParseState)
      → 1 ≤ f
      → logical_operator to.next_token ≡ none
      → logical_loop env f old (v, to) ≡ done (v, to)
  unfolding logical_loop logical_step
  logical_loop-exit zero old v to h e = absurd (omega arith)
  logical_loop-exit (suc f) old v to h e = rw (logical_step, e) refl

  pub Gives-more :
      (p : ℕ → Parser Value) (c c' : ℕ) (state to : ParseState) (o : Outcome Value)
      → c ≤ c'
      → Gives p c state o to
      → Gives p c' state o to
  unfolding Gives
  Gives-more p c c' state to o h g f l = g f (omega arith)

  -- A step behind an operand.
  pub Gives-next :
      {B : Type 0} (p : ℕ → Parser Value) (c : ℕ) (state to : ParseState) (o : Outcome Value)
      (f : ℕ) (g : Value × ParseState → Outcome B) (r : Value → Outcome B)
      → c ≤ f
      → Gives p c state o to
      → ((v : Value) → g (v, to) ≡ r v)
      → next (p f state) g ≡ next o r
  unfolding Gives
  Gives-next p c state to o f g r l h e =
      ap (λ x. next x g) (h f l) ∙ (next-done o (λ v. (v, to)) g ∙ next-cong o (λ v. g (v, to)) r e)

  -- A loop that ends at the first token behind its operand.
  pub infix-Gives :
      (lv : Level) (c : ℕ) (state to : ParseState) (o : Outcome Value)
      → 1 ≤ c
      → token_level to.next_token ≤ level lv
      → Gives (λ f. do_operand env f lv) c state o to
      → Gives (λ f. do_infix env f lv) (c + 1) state o to
  unfolding Gives do_infix
  infix-Gives lv c state to o h t g zero l = absurd (omega arith)
  infix-Gives lv c state to o h t g (suc f) l =
      Gives-next (λ x. do_operand env x lv) c state to o f (infix_loop env f lv) (λ v. done (v, to))
        (omega arith) g
        (λ v. infix_loop-exit f lv v to (omega arith) (is_operator-false lv to.next_token t))

  logical-Gives :
      (c : ℕ) (state to : ParseState) (o : Outcome Value)
      → 1 ≤ c
      → token_level to.next_token ≤ 1
      → Gives (λ f. do_infix env f relational) c state o to
      → Gives (do_logical env) (c + 1) state o to
  unfolding Gives do_logical
  logical-Gives c state to o h t g zero l = absurd (omega arith)
  logical-Gives c state to o h t g (suc f) l =
      Gives-next (λ x. do_infix env x relational) c state to o f (logical_loop env f state.discard)
        (λ v. done (v, to)) (omega arith) g
        (λ v.
          logical_loop-exit f state.discard v to (omega arith)
            (logical_operator-none env to.next_token t))

  ternary-Gives :
      (c : ℕ) (state to : ParseState) (o : Outcome Value)
      → token_level to.next_token ≤ 0
      → Gives (do_logical env) c state o to
      → Gives (do_ternary env) (c + 1) state o to
  unfolding Gives do_ternary ternary_step
  ternary-Gives c state to o t g zero l = absurd (omega arith)
  ternary-Gives c state to o t g (suc f) l =
      Gives-next (do_logical env) c state to o f (ternary_step env (do_ternary env f) state.discard)
        (λ v. done (v, to)) (omega arith) g (λ v. rw (is_cond-false to.next_token t) refl)

  -- The operand of a level is what the level below gives.
  unfoldable pub below : Level → ℕ → Parser Value
  below relational f = do_infix env f additive
  below additive f = do_infix env f multiplicative
  below multiplicative f = do_primary env f

  pub operand-Gives :
      (lv : Level) (c : ℕ) (state to : ParseState) (o : Outcome Value)
      → Gives (below lv) c state o to
      → Gives (λ f. do_operand env f lv) (c + 1) state o to
  unfolding Gives do_operand below
  operand-Gives lv c state to o g zero l = absurd (omega arith)
  operand-Gives relational c state to o g (suc f) l = g f (omega arith)
  operand-Gives additive c state to o g (suc f) l = g f (omega arith)
  operand-Gives multiplicative c state to o g (suc f) l = g f (omega arith)

  -- An operand of a level is one of the level above it, with up to three calls more.
  pub lower :
      (k c : ℕ) (state to : ParseState) (o : Outcome Value)
      → k < 5
      → 1 ≤ c
      → token_level to.next_token ≤ k
      → Gives (parser_at env (suc k)) c state o to
      → Gives (parser_at env k) (c + 3) state o to
  unfolding parser_at below level
  lower zero c state to o h n t g =
      Gives-more (do_ternary env) (c + 1) (c + 3) state to o (omega arith)
        (ternary-Gives c state to o t g)
  lower (suc zero) c state to o h n t g =
      Gives-more (do_logical env) (c + 1) (c + 3) state to o (omega arith)
        (logical-Gives c state to o n t g)
  lower (suc (suc zero)) c state to o h n t g =
      Gives-more (λ f. do_infix env f relational) (c + 1) (c + 3) state to o (omega arith)
        (infix-Gives relational c state to o n t g)
  lower (suc (suc (suc zero))) c state to o h n t g =
      Gives-more (λ f. do_operand env f relational) (c + 1 + 1) (c + 3) state to o (omega arith)
        (operand-Gives relational (c + 1) state to o (infix-Gives additive c state to o n t g))
  lower (suc (suc (suc (suc zero)))) c state to o h n t g =
      Gives-more (λ f. do_operand env f additive) (c + 1 + 1 + 1) (c + 3) state to o (omega arith)
        (operand-Gives additive (c + 1 + 1) state to o (
          infix-Gives multiplicative (c + 1) state to o (omega arith) t
            (operand-Gives multiplicative c state to o g)))
  lower (suc (suc (suc (suc (suc k))))) c state to o h n t g = absurd (omega arith)

  -- The same for any level above.
  pub lower_by :
      (n k c : ℕ) (state to : ParseState) (o : Outcome Value)
      → n + k ≤ 5
      → 1 ≤ c
      → token_level to.next_token ≤ k
      → Gives (parser_at env (n + k)) c state o to
      → Gives (parser_at env k) (c + 3 * n) state o to
  lower_by zero k c state to o h l t g =
      let same : 0 + k ≡ k = omega arith in
      Gives-more (parser_at env k) c (c + 3 * 0) state to o (omega arith) (rw same at g)
  lower_by (suc n) k c state to o h l t g =
      let same : suc n + k ≡ suc (n + k) = omega arith in
      Gives-more (parser_at env k) (c + 3 + 3 * n) (c + 3 * suc n) state to o (omega arith) (
        lower_by n k (c + 3) state to o (omega arith) (omega arith) t
          (lower (n + k) c state to o (omega arith) l (omega arith) (rw same at g)))
