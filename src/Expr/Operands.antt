-- ===== src/Expr/Operands.antt =====
-- The operators before their operand and the ternary operator: `doPrimary` and `doTernary` of
-- rpmio/expression.cc on their texts.
use rpm.Base.{
  ℕ, zero, suc, ◌+◌, ◌*◌, ◌≤◌, ◌≡◌, refl, sym, ap, ◌∙◌, Bool, not, ◌||◌, none, ◌∷◌, ◌++◌,
  append_assoc, length, length-append, Bytes, arith, if◌then◌else◌,
}
use rpm.Expr.{
  Value, integer, text, version, Outcome, done, failed, next, Env, boolify, truth, same_type, Token,
  tok_minus, tok_not, tok_ternary_cond, tok_ternary_alt,
}
use rpm.Expr.Lexer.{ParseState, rd_token}
use rpm.Expr.Parser.{
  with_discard, do_ternary, do_logical, do_primary, primary_step, negated, inverted, ternary_step,
  ternary_alt, is_cond, is_alt,
}
use rpm.Expr.Gives.{Gives, Gives-next, parser_at, token_level, next-next, next-cong}
use rpm.Expr.Reading.{
  read, rd_token-read, state_at, Follows, read_minus, read_not, cond-Follows, alt-Follows,
}
use rpm.Expr.Reads.{cost, Reads, read-discard}
use rpm.Expr.Reads.Wrapped.{Opens, read-same, read-then}
use rpm.Expr.Syntax.{select, minus_value}

-- A minus or a '!' before an operand of the last level.
unary-Reads :
    (env : Env) (op : Token) (c : ℕ) (t : Bytes) (o : Bool → Outcome Value)
    (act : Value × ParseState → Outcome (Value × ParseState)) (value : Value → Outcome Value)
    → ((f : ℕ) (s : ParseState)
        → s.next_token ≡ op
        → do_primary env (suc f) s ≡ next (rd_token env s) (λ s'. next (do_primary env f s') act))
    → ((v : Value) (s : ParseState) → act (v, s) ≡ next (value v) (λ v'. done (v', s)))
    → ((d : Bool) (p : Bytes) → read env d (32 ∷ c ∷ (t ++ p)) ≡ done (state_at d op none (t ++ p)))
    → Opens env t
    → Reads env 5 t o
    → Reads env 5 (32 ∷ c ∷ t) (λ d. next (o d) value)
unfolding Reads cost Gives parser_at
unary-Reads env op c t o act value step acts first op_t h d rest tok p s fo tl e zero l =
    absurd (omega arith)
unary-Reads env op c t o act value step acts first op_t h d rest tok p s fo tl e (suc f) l =
    let same : s ≡ state_at d op none (t ++ rest) =
      read-same env d (32 ∷ c ∷ (t ++ rest)) s (state_at d op none (t ++ rest)) e (first d rest) in
    rw same (
      step f (state_at d op none (t ++ rest)) (unfold state_at in refl)
      ∙ (rw (rd_token-read env (state_at d op none (t ++ rest))) (
          unfold state_at in
          read-then env 5 t o op_t h d rest tok p f act
            (λ v. next (value v) (λ v'. done (v', state_at d tok none p))) fo tl (omega arith)
            (λ v. acts v (state_at d tok none p))))
      ∙ sym (next-next (o d) value (λ v'. done (v', state_at d tok none p))))

negated-value :
    (env : Env) (v : Value) (s : ParseState)
    → negated env (v, s) ≡ next (minus_value v) (λ v'. done (v', s))
unfolding negated minus_value next
negated-value env (integer i) s = refl
negated-value env (text x) s = refl
negated-value env (version x) s = refl

pub minus-Reads :
    (env : Env) (t : Bytes) (o : Bool → Outcome Value)
    → Opens env t
    → Reads env 5 t o
    → Reads env 5 (32 ∷ b'-' ∷ t) (λ d. next (o d) minus_value)
unfolding rd_token
minus-Reads env t o op_t h =
    unary-Reads env tok_minus b'-' t o (negated env) minus_value
      (λ f s e. unfold do_primary primary_step in rw (primary_step, e) refl) (negated-value env)
      (λ d p. read_minus env d (t ++ p)) op_t h

pub inverse-Reads :
    (env : Env) (t : Bytes) (o : Bool → Outcome Value)
    → Opens env t
    → Reads env 5 t o
    → Reads env 5 (32 ∷ b'!' ∷ t) (λ d. next (o d) (λ v. done (truth (not (boolify v)))))
unfolding rd_token
inverse-Reads env t o op_t h =
    unary-Reads env tok_not b'!' t o (inverted env) (λ v. done (truth (not (boolify v))))
      (λ f s e. unfold do_primary primary_step in rw (primary_step, e) refl)
      (λ v s. unfold inverted next in refl)
      (λ d p. let (y, e) = op_t.blank in rw e (read_not env d (y ++ p))) op_t h

select-next :
    (cond : Bool) (v1 v2 : Value) (to : ParseState)
    → if◌then◌else◌ {A = Outcome (Value × ParseState)}
        (same_type v1 v2)
        (done (if cond then v1 else v2, to))
        failed
      ≡ next (select cond v1 v2) (λ v. done (v, to))
unfolding select next
select-next cond v1 v2 to = ground arith

ternary_alt-value :
    (env : Env) (b : Bytes) (ob : Bool → Outcome Value)
    → Opens env b
    → Reads env 0 b ob
    → (d d1 cond : Bool) (v1 : Value) (rest : Bytes) (tok : Token) (p : Bytes) (f : ℕ)
    → Follows env rest tok p
    → token_level tok ≤ 0
    → cost 0 b ≤ f
    → ternary_alt env (do_ternary env f) d cond v1 (state_at d1 tok_ternary_alt none (b ++ rest))
      ≡ next
          (ob (d || cond))
          (λ v2. next (select cond v1 v2) (λ v. done (v, state_at d tok none p)))
unfolding ternary_alt state_at is_alt with_discard read rd_token parser_at
ternary_alt-value env b ob op h d d1 cond v1 rest tok p f fo tl l =
    read-then env 0 b ob op h (d || cond) rest tok p f
      (λ (v2, t).
        if same_type v1 v2 then done (if cond then v1 else v2, with_discard t d) else failed)
      (λ v2. next (select cond v1 v2) (λ v. done (v, state_at d tok none p))) fo tl l
      (λ v2. select-next cond v1 v2 (state_at d tok none p))

ternary_step-value :
    (env : Env) (a b : Bytes) (oa ob : Bool → Outcome Value)
    → Opens env a
    → Reads env 0 a oa
    → Opens env b
    → Reads env 0 b ob
    → (d : Bool) (v : Value) (rest : Bytes) (tok : Token) (p : Bytes) (f : ℕ)
    → Follows env rest tok p
    → token_level tok ≤ 0
    → cost 0 a ≤ f
    → cost 0 b ≤ f
    → ternary_step env
        (do_ternary env f)
        d
        (v, state_at d tok_ternary_cond none (a ++ 32 ∷ b':' ∷ (b ++ rest)))
      ≡ next (oa (d || not (boolify v))) (λ v1.
        next
          (ob (d || boolify v))
          (λ v2. next (select (boolify v) v1 v2) (λ x. done (x, state_at d tok none p))))
unfolding ternary_step state_at is_cond with_discard read rd_token parser_at
ternary_step-value env a b oa ob op_a ha op_b hb d v rest tok p f fo tl la lb =
    read-then env 0 a oa op_a ha (d || not (boolify v)) (32 ∷ b':' ∷ (b ++ rest)) tok_ternary_alt
      (b ++ rest) f (λ (v1, t). ternary_alt env (do_ternary env f) d (boolify v) v1 t) _
      (alt-Follows env (b ++ rest)) (unfold token_level in omega arith) la
      (λ v1.
        ternary_alt-value env b ob op_b hb d (d || not (boolify v)) (boolify v) v1 rest tok p f fo
          tl lb)

next-next3 :
    {A B C D E : Type 0} (o : Outcome A) (g : A → Outcome B) (h : A → B → Outcome C)
    (k : A → B → C → Outcome D) (r : D → Outcome E)
    → next o (λ a. next (g a) (λ b. next (h a b) (λ c. next (k a b c) r)))
      ≡ next (next o (λ a. next (g a) (λ b. next (h a b) (k a b)))) r
next-next3 o g h k r =
    next-cong o _ _ (λ a.
      next-cong (g a) _ _ (λ b. sym (next-next (h a b) (k a b) r))
      ∙ sym (next-next (g a) (λ b. next (h a b) (k a b)) r))
    ∙ sym (next-next o (λ a. next (g a) (λ b. next (h a b) (k a b))) r)

-- The ternary operator.
pub ternary-Reads :
    (env : Env) (c a b : Bytes) (oc oa ob : Bool → Outcome Value)
    → Opens env c
    → Reads env 1 c oc
    → Opens env a
    → Reads env 0 a oa
    → Opens env b
    → Reads env 0 b ob
    → Reads env 0 (c ++ ((32 ∷ b'?' ∷ a) ++ (32 ∷ b':' ∷ b))) (λ d. next (oc d) (λ v.
      next
        (oa (d || not (boolify v)))
        (λ v1. next (ob (d || boolify v)) (λ v2. select (boolify v) v1 v2))))
unfolding Reads cost Gives parser_at do_ternary
ternary-Reads env c a b oc oa ob op_c hc op_a ha op_b hb d rest tok p s fo tl e zero l =
    absurd (omega arith)
ternary-Reads env c a b oc oa ob op_c hc op_a ha op_b hb d rest tok p s fo tl e (suc f) l =
    let behind_a = 32 ∷ b':' ∷ (b ++ rest) in
    let behind_c = 32 ∷ b'?' ∷ (a ++ behind_a) in
    let split : (c ++ ((32 ∷ b'?' ∷ a) ++ (32 ∷ b':' ∷ b))) ++ rest ≡ c ++ behind_c =
      append_assoc c ((32 ∷ b'?' ∷ a) ++ (32 ∷ b':' ∷ b)) rest
      ∙ ap (λ y. c ++ 32 ∷ b'?' ∷ y) (append_assoc a (32 ∷ b':' ∷ b) rest) in
    let to = state_at d tok none p in
    let reads_c : read env d (c ++ behind_c) ≡ done s = sym (ap (read env d) split) ∙ e in
    let room : 12 * length c + 12 * length a + 12 * length b + 48 ≤ f = omega (
      arith,
      length-append c ((32 ∷ b'?' ∷ a) ++ (32 ∷ b':' ∷ b)),
      length-append a (32 ∷ b':' ∷ b),
    ) in
    Gives-next env (do_logical env) (cost 1 c) s (state_at d tok_ternary_cond none (a ++ behind_a))
      (oc d) f (ternary_step env (do_ternary env f) s.discard)
      (λ v. next (oa (d || not (boolify v))) (λ v1.
        next (ob (d || boolify v)) (λ v2. next (select (boolify v) v1 v2) (λ x. done (x, to)))))
      (unfold cost in omega (arith, room))
      (hc d behind_c tok_ternary_cond (a ++ behind_a) s (cond-Follows env (a ++ behind_a))
        (unfold token_level in omega arith) reads_c)
      (λ v. rw (read-discard env d (c ++ behind_c) s reads_c) (
        ternary_step-value env a b oa ob op_a ha op_b hb d v rest tok p f fo tl
          (unfold cost in omega (arith, room)) (unfold cost in omega (arith, room))))
    ∙ next-next3 (oc d) (λ v. oa (d || not (boolify v))) (λ v v1. ob (d || boolify v))
        (λ v v1 v2. select (boolify v) v1 v2) (λ x. done (x, to))
