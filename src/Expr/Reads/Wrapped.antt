-- ===== src/Expr/Reads/Wrapped.antt =====
-- Texts in parentheses, and the reading of a first token.
use rpm.Base.{
  ℕ, zero, suc, ◌+◌, ◌*◌, ◌-◌, ◌≤◌, ◌≡◌, refl, ap, ◌∙◌, Bool, true, false, none, [], ◌∷◌, ◌++◌,
  append_assoc, ltb, length, length-append, Bytes, arith, Bool-cases, inl, inr,
}
use rpm.Expr.{Value, Outcome, done, next, Env, Token, tok_open_p, tok_close_p}
use rpm.Expr.Lexer.{ParseState, rd_token}
use rpm.Expr.Parser.{Parser, do_primary, primary_step, parenthesised, closed, is_close}
use rpm.Expr.Gives.{Gives, Gives-more, Gives-next, parser_at, lower_by, token_level}
use rpm.Expr.Reading.{read, rd_token-read, state_at, IsSpaced, Follows, read_open, close-Follows}
use rpm.Expr.Syntax.{wrap}
use rpm.Expr.Reads.{Reads, cost}

-- An operand of a level is one of each level above it.
Reads-lower :
    (env : Env) (n k : ℕ) (t : Bytes) (o : Bool → Outcome Value)
    → n + k ≤ 5
    → Reads env (n + k) t o
    → Reads env k t o
unfolding Reads cost
Reads-lower env n k t o l h d rest tok p s fo tl e =
    Gives-more env (parser_at env k) (cost (n + k) t + 3 * n) (cost k t) s (state_at d tok none p)
      (o d) (omega arith)
      (lower_by env n k (cost (n + k) t) s (state_at d tok none p) (o d) l (omega arith)
        (unfold state_at in tl) (h d rest tok p s fo (omega arith) e))

pub read-same :
    (env : Env) (d : Bool) (t : Bytes) (s s' : ParseState)
    → read env d t ≡ done s
    → read env d t ≡ done s'
    → s ≡ s'
read-same env d t s s' h e = ground arith

wrap-append : (t rest : Bytes) → wrap true t ++ rest ≡ 32 ∷ b'(' ∷ (t ++ 32 ∷ b')' ∷ rest)
unfolding wrap
wrap-append t rest = ap (λ x. 32 ∷ b'(' ∷ x) (append_assoc t (32 ∷ b')' ∷ []) rest)

wrap-length : (t : Bytes) → length (wrap true t) ≡ length t + 4
unfolding wrap
wrap-length t = omega (arith, length-append t (32 ∷ b')' ∷ []))

-- What has a space before it, and a first token whatever follows.
pub record Opens (env : Env) (t : Bytes) : Type 0 where
  pub blank : (y : Bytes) × (t ≡ 32 ∷ y)
  pub first :
      (d : Bool) (rest : Bytes)
      → IsSpaced rest
      → (s : ParseState) × (read env d (t ++ rest) ≡ done s)

pub wrap-Opens : (env : Env) (t : Bytes) → Opens env (wrap true t)
wrap-Opens env t = record {
  blank = (b'(' ∷ (t ++ 32 ∷ b')' ∷ []), unfold wrap in refl);
  first = λ d rest h. (
    state_at d tok_open_p none (t ++ 32 ∷ b')' ∷ rest),
    ap (read env d) (wrap-append t rest) ∙ read_open env d (t ++ 32 ∷ b')' ∷ rest),
  );
}

-- A first token is read, and then an operand.
pub read-next :
    {B : Type 0} (env : Env) (t : Bytes)
    → Opens env t
    → (q : ℕ → Parser Value) (c : ℕ) (o : Outcome Value) (to : ParseState) (d : Bool) (rest : Bytes)
      (f : ℕ) (g : Value × ParseState → Outcome B) (r : Value → Outcome B)
    → IsSpaced rest
    → ((s : ParseState) → read env d (t ++ rest) ≡ done s → Gives q c s o to)
    → c ≤ f
    → ((v : Value) → g (v, to) ≡ r v)
    → next (read env d (t ++ rest)) (λ s. next (q f s) g) ≡ next o r
unfolding next
read-next env t op q c o to d rest f g r sp h l e =
    let (s, e1) = op.first d rest sp in rw e1 (Gives-next env q c s to o f g r l (h s e1) e)

pub read-then :
    {B : Type 0} (env : Env) (k : ℕ) (t : Bytes) (o : Bool → Outcome Value)
    → Opens env t
    → Reads env k t o
    → (d : Bool) (rest : Bytes) (tok : Token) (p : Bytes) (f : ℕ)
      (g : Value × ParseState → Outcome B) (r : Value → Outcome B)
    → Follows env rest tok p
    → token_level tok ≤ k
    → cost k t ≤ f
    → ((v : Value) → g (v, state_at d tok none p) ≡ r v)
    → next (read env d (t ++ rest)) (λ s. next (parser_at env k f s) g) ≡ next (o d) r
unfolding Reads
read-then env k t o op h d rest tok p f g r fo tl l e =
    read-next env t op (parser_at env k) (cost k t) (o d) (state_at d tok none p) d rest f g r
      fo.spaced (λ s e1. h d rest tok p s fo tl e1) l e

closed-gives :
    (env : Env) (d : Bool) (v : Value) (rest p : Bytes) (tok : Token)
    → Follows env rest tok p
    → closed env (v, state_at d tok_close_p none rest) ≡ done (v, state_at d tok none p)
unfolding closed state_at
closed-gives env d v rest p tok fo =
    rw (rd_token-read env (state_at d tok_close_p none rest), fo.reads d)
      (unfold is_close next in refl)

-- Parentheses make an operand of the last level.
pub Reads-wrap :
    (env : Env) (t : Bytes) (o : Bool → Outcome Value)
    → Opens env t
    → Reads env 0 t o
    → Reads env 5 (wrap true t) o
unfolding Reads cost Gives parser_at do_primary primary_step parenthesised rd_token
Reads-wrap env t o op h d rest tok p s fo tl e zero l = absurd (omega arith)
Reads-wrap env t o op h d rest tok p s fo tl e (suc f) l =
    let q = t ++ 32 ∷ b')' ∷ rest in
    let same : s ≡ state_at d tok_open_p none q =
      read-same env d (wrap true t ++ rest) s (state_at d tok_open_p none q) e
        (ap (read env d) (wrap-append t rest) ∙ read_open env d q) in
    rw same (
      unfold state_at read in
      read-then env 0 t o op h d (32 ∷ b')' ∷ rest) tok_close_p rest f (closed env)
        (λ v. done (v, state_at d tok none p)) (close-Follows env rest)
        (unfold token_level in omega arith) (omega (arith, wrap-length t))
        (λ v. closed-gives env d v rest p tok fo))

-- A text as an operand of any level, in parentheses where it is needed.
pub wrap_if-Reads :
    (env : Env) (k n : ℕ) (t : Bytes) (o : Bool → Outcome Value)
    → n ≤ 5
    → k ≤ 5
    → Opens env t
    → Reads env n t o
    → Reads env k (wrap (ltb n k) t) o
wrap_if-Reads env k n t o l m op h = elim (Bool-cases (ltb n k)) [
  | inl e ↦
      let five : (5 - k) + k ≡ 5 = omega arith in
      let zeroth : n + 0 ≡ n = omega arith in
      rw e (
        Reads-lower env (5 - k) k (wrap true t) o (omega arith)
          (rw five (Reads-wrap env t o op (Reads-lower env n 0 t o (omega arith) (rw zeroth h)))))
  | inr e ↦
      let same : (n - k) + k ≡ n = ground (arith, e) in
      rw e (unfold wrap in Reads-lower env (n - k) k t o (omega arith) (rw same h))
]

pub wrap_if-Opens : (env : Env) (b : Bool) (t : Bytes) → Opens env t → Opens env (wrap b t)
unfolding wrap
wrap_if-Opens env true t op = wrap-Opens env t
wrap_if-Opens env false t op = op
