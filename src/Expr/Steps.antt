-- ===== src/Expr/Steps.antt =====
-- A round of the loops of rpmio/expression.cc: an operator and its second operand.
use rpm.Base.{
  ℕ, zero, suc, ◌+◌, ◌≤◌, ◌≡◌, sym, ap, ◌∙◌, Bool, true, ◌||◌, none, some, ◌++◌, append_assoc,
  length, length-append, Bytes, arith,
}
use rpm.Expr.{Value, Outcome, next, Env, Level, is_operator, apply, Token}
use rpm.Expr.Lexer.{ParseState, rd_token}
use rpm.Expr.Parser.{
  with_discard, logical_loop, infix_loop, infix_step, logical_operator, logical_step, choose,
  short_circuits,
}
use rpm.Expr.Gives.{token_level, next-next, next-cong}
use rpm.Expr.Reading.{read, state_at, Follows}
use rpm.Expr.Reads.{cost, Reads, Loop, loop_level, loop, operand, loop_cost, LoopReads, operand-of}
use rpm.Expr.Reads.Wrapped.{Opens, read-next}
use rpm.Expr.Syntax.{level, operator_text, logical_text}

-- What a loop does with an operator, whose text is `w`, and its second operand `t`, for a first operand.
unfoldable pub Round : Env → Loop → Token → Bytes → Bytes → (Bool → Value → Outcome Value) → Type 0
Round env ll op w t c =
    (d : Bool) (rest : Bytes) (tok : Token) (p : Bytes) (m : ℕ)
    (r : Value → Outcome (Value × ParseState))
    → Follows env rest tok p
    → token_level tok ≤ suc (loop_level ll)
    → ((v : Value) (g : ℕ) → m ≤ g → loop env ll d g (v, state_at d tok none p) ≡ r v)
    → (v1 : Value) (g : ℕ) → m + cost (suc (loop_level ll)) t + 2 ≤ g
    → loop env ll d g (v1, state_at d op none (t ++ rest)) ≡ next (c d v1) r

pub infix-Round :
    (env : Env) (lv : Level) (op : Token) (t : Bytes) (o : Bool → Outcome Value)
    → is_operator lv op ≡ true
    → Opens env t
    → Reads env (suc (level lv)) t o
    → Round env (some lv) op (operator_text op) t (λ d v1. next (o d) (λ v2. apply lv d op v1 v2))
unfolding Round infix_loop infix_step state_at read rd_token loop_level operand loop
infix-Round env lv op t o is op_t h d rest tok p m r fo tl k v1 zero l = absurd (omega arith)
infix-Round env lv op t o is op_t h d rest tok p m r fo tl k v1 (suc g) l =
    rw (infix_step, is)
      (read-next env t op_t (operand env (some lv)) (cost (suc (level lv)) t + 1) (o d)
          (state_at d tok none p) d rest g
          (λ (v2, x). next (apply lv x.discard op v1 v2) (λ v. infix_loop env g lv (v, x)))
          (λ v2. next (apply lv d op v1 v2) r) fo.spaced
          (λ s e.
            operand-of env (some lv) (cost (suc (level lv)) t) s (state_at d tok none p) (o d)
              (unfold Reads in h d rest tok p s fo tl e))
          (omega arith)
          (λ v2.
            next-cong (apply lv d op v1 v2) (λ v. infix_loop env g lv (v, state_at d tok none p)) r
              (λ v. k v g (omega arith)))
        ∙ sym (next-next (o d) (λ v2. apply lv d op v1 v2) r))

pub logical-Round :
    (env : Env) (is_and : Bool) (op : Token) (t : Bytes) (o : Bool → Outcome Value)
    → logical_operator op ≡ some is_and
    → Opens env t
    → Reads env 2 t o
    → Round env none op
        (logical_text is_and)
        t
        (λ d v1. next (o (d || short_circuits env is_and v1)) (λ v2. choose env is_and v1 v2))
unfolding Round logical_loop logical_step with_discard state_at read rd_token loop_level operand
    loop
logical-Round env is_and op t o is op_t h d rest tok p m r fo tl k v1 zero l = absurd (omega arith)
logical-Round env is_and op t o is op_t h d rest tok p m r fo tl k v1 (suc g) l =
    let d' = d || short_circuits env is_and v1 in
    rw (logical_step, is)
      (read-next env t op_t (operand env none) (cost 2 t + 1) (o d') (state_at d' tok none p) d'
          rest g
          (λ (v2, x).
            next (choose env is_and v1 v2) (λ v. logical_loop env g d (v, with_discard x d)))
          (λ v2. next (choose env is_and v1 v2) r) fo.spaced
          (λ s e.
            operand-of env none (cost 2 t) s (state_at d' tok none p) (o d')
              (unfold Reads in h d' rest tok p s fo tl e))
          (omega arith)
          (λ v2.
            next-cong (choose env is_and v1 v2)
              (λ v. logical_loop env g d (v, state_at d tok none p)) r (λ v. k v g (omega arith)))
        ∙ sym (next-next (o d') (λ v2. choose env is_and v1 v2) r))

-- A loop reads what it reads already, an operator and an operand of the next level.
pub Round-LoopReads :
    (env : Env) (ll : Loop) (op : Token) (x w t : Bytes) (o : Bool → Outcome Value)
    (c : Bool → Value → Outcome Value)
    → LoopReads env ll x o
    → 2 ≤ length w
    → token_level op ≡ suc (loop_level ll)
    → ((rest : Bytes) → Follows env (w ++ (t ++ rest)) op (t ++ rest))
    → Round env ll op w t c
    → LoopReads env ll (x ++ (w ++ t)) (λ d. next (o d) (c d))
unfolding LoopReads Round cost loop_cost
Round-LoopReads env ll op x w t o c h lw tl_op fo_op round d rest tok p s m r fo tl e k f l =
    let split : (x ++ (w ++ t)) ++ rest ≡ x ++ (w ++ (t ++ rest)) =
      append_assoc x (w ++ t) rest ∙ ap (λ y. x ++ y) (append_assoc w t rest) in
    h d (w ++ (t ++ rest)) op (t ++ rest) s (m + cost (suc (loop_level ll)) t + 2)
      (λ v1. next (c d v1) r) (fo_op rest) (omega arith) (sym (ap (read env d) split) ∙ e)
      (λ v1 g n. round d rest tok p m r fo tl k v1 g n) f
      (omega (arith, length-append x (w ++ t), length-append w t))
    ∙ sym (next-next (o d) (c d) r)
