-- ===== src/Expr/Reads.antt =====
-- Texts that a level of the descent reads as an operand with a given value, whatever follows them.
pub mod Wrapped
use rpm.Base.{
  ℕ, zero, suc, ◌+◌, ◌*◌, ◌-◌, ◌≤◌, ◌≡◌, refl, sym, ap, ◌∙◌, Bool, true, false, Option, none, some,
  [], ◌∷◌, ◌++◌, append_assoc, ltb, length, length-append, drop_while, Bytes, arith, Bool-cases,
  inl, inr,
}
use rpm.Expr.{
  Value, Outcome, done, failed, fault, out_of_fuel, next, Env, Level, relational, additive,
  multiplicative, Token, tok_open_p, tok_close_p, tok_eof,
}
use rpm.Expr.Lexer.{ParseState, Lexed, rd_token, lex, is_space}
use rpm.Expr.Parser.{
  Parser, do_logical, logical_loop, do_infix, infix_loop, do_operand, do_primary, primary_step,
  parenthesised, closed, is_close,
}
use rpm.Expr.Gives.{
  Gives, below, Gives-more, Gives-next, parser_at, lower_by, operand-Gives, token_level,
  infix_loop-exit, logical_loop-exit, is_operator-false, logical_operator-none,
}
use rpm.Expr.Reading.{read, rd_token-read, state_at, IsSpaced, Follows, read_open, close-Follows}
use rpm.Expr.Syntax.{level, wrap}

unfoldable pub cost : ℕ → Bytes → ℕ
cost k t = 12 * length t + 4 * (5 - k) + 1

-- The level `k` reads `t` as an operand with the value `o`.
unfoldable pub Reads : Env → ℕ → Bytes → (Bool → Outcome Value) → Type 0
Reads env k t o =
    (d : Bool) (rest : Bytes) (tok : Token) (p : Bytes) (s : ParseState)
    → Follows env rest tok p
    → token_level tok ≤ k
    → read env d (t ++ rest) ≡ done s
    → Gives (parser_at env k) (cost k t) s (o d) (state_at d tok none p)

-- The loops: of `doLogical`, or of the infix operators of a level.
abbrev pub Loop : Type 0
Loop = Option Level

unfoldable pub loop_level : Loop → ℕ
unfolding level
loop_level none = 1
loop_level (some lv) = level lv

unfoldable pub call : Env → Loop → ℕ → Parser Value
call env none f = do_logical env f
call env (some lv) f = do_infix env f lv

unfoldable pub loop : Env → Loop → Bool → ℕ → Value × ParseState → Outcome (Value × ParseState)
loop env none d f = logical_loop env f d
loop env (some lv) d f = infix_loop env f lv

unfoldable pub operand : Env → Loop → ℕ → Parser Value
operand env none f = do_infix env f relational
operand env (some lv) f = do_operand env f lv

unfoldable pub loop_cost : Loop → Bytes → ℕ
loop_cost ll t = 12 * length t + (4 * (5 - loop_level ll) - 1)

-- The call of a loop reads `t` with the value `o` and goes on with the loop, which may find one more
-- of its operators.
unfoldable pub LoopReads : Env → Loop → Bytes → (Bool → Outcome Value) → Type 0
LoopReads env ll t o =
    (d : Bool) (rest : Bytes) (tok : Token) (p : Bytes) (s : ParseState) (m : ℕ)
    (r : Value → Outcome (Value × ParseState))
    → Follows env rest tok p
    → token_level tok ≤ suc (loop_level ll)
    → read env d (t ++ rest) ≡ done s
    → ((v : Value) (g : ℕ) → m ≤ g → loop env ll d g (v, state_at d tok none p) ≡ r v)
    → (f : ℕ) → m + loop_cost ll t ≤ f
    → call env ll f s ≡ next (o d) r

discard_of : Bool → Outcome ParseState → Bool
discard_of d (done s) = s.discard
discard_of d _ = d

lexed-discard :
    (o : Outcome Lexed) (state s : ParseState)
    → next o (λ l. done (record state { p = l.rest; next_token = l.token; token_value = l.value }))
      ≡ done s
    → s.discard ≡ state.discard
unfolding next discard_of
lexed-discard (done l) state s h = ap (discard_of state.discard) (sym h)
lexed-discard failed state s h = ground arith
lexed-discard fault state s h = ground arith
lexed-discard out_of_fuel state s h = ground arith

pub read-discard :
    (env : Env) (d : Bool) (t : Bytes) (s : ParseState) → read env d t ≡ done s → s.discard ≡ d
unfolding read rd_token state_at
read-discard env d t s h =
    lexed-discard (lex env d (drop_while is_space t)) (state_at d tok_eof none t) s h

pub call-suc :
    (env : Env) (ll : Loop) (f : ℕ) (s : ParseState)
    → call env ll (suc f) s ≡ next (operand env ll f s) (loop env ll s.discard f)
unfolding call operand loop do_logical do_infix
call-suc env none f s = refl
call-suc env (some lv) f s = refl

loop_level-bounds : (ll : Loop) → (1 ≤ loop_level ll) × (loop_level ll ≤ 4)
unfolding loop_level level
loop_level-bounds none = (omega arith, omega arith)
loop_level-bounds (some relational) = (omega arith, omega arith)
loop_level-bounds (some additive) = (omega arith, omega arith)
loop_level-bounds (some multiplicative) = (omega arith, omega arith)

-- An operand of a loop is what the next level gives.
pub operand-of :
    (env : Env) (ll : Loop) (c : ℕ) (s to : ParseState) (o : Outcome Value)
    → Gives (parser_at env (suc (loop_level ll))) c s o to
    → Gives (operand env ll) (c + 1) s o to
unfolding operand parser_at loop_level level below
operand-of env none c s to o g = Gives-more env (operand env none) c (c + 1) s to o (omega arith) g
operand-of env (some relational) c s to o g =
    Gives-more env (operand env (some relational)) c (c + 1) s to o (omega arith) g
operand-of env (some additive) c s to o g =
    Gives-more env (operand env (some additive)) c (c + 1) s to o (omega arith) g
operand-of env (some multiplicative) c s to o g = operand-Gives env multiplicative c s to o g

call-parser :
    (env : Env) (ll : Loop) (c : ℕ) (s to : ParseState) (o : Outcome Value)
    → Gives (call env ll) c s o to
    → Gives (parser_at env (loop_level ll)) (c + 1) s o to
unfolding call parser_at loop_level level below
call-parser env none c s to o g = Gives-more env (call env none) c (c + 1) s to o (omega arith) g
call-parser env (some relational) c s to o g =
    Gives-more env (call env (some relational)) c (c + 1) s to o (omega arith) g
call-parser env (some additive) c s to o g = operand-Gives env relational c s to o g
call-parser env (some multiplicative) c s to o g = operand-Gives env additive c s to o g

loop-exit :
    (env : Env) (ll : Loop) (d : Bool) (v : Value) (to : ParseState) (f : ℕ)
    → 1 ≤ f
    → token_level to.next_token ≤ loop_level ll
    → loop env ll d f (v, to) ≡ done (v, to)
unfolding loop loop_level
loop-exit env none d v to f h t =
    logical_loop-exit env f d v to h (logical_operator-none env to.next_token t)
loop-exit env (some lv) d v to f h t =
    infix_loop-exit env f lv v to h (is_operator-false lv to.next_token t)

-- What the next level reads as an operand, a loop reads as its first operand.
pub Reads-LoopReads :
    (env : Env) (ll : Loop) (t : Bytes) (o : Bool → Outcome Value)
    → Reads env (suc (loop_level ll)) t o
    → LoopReads env ll t o
unfolding Reads LoopReads cost loop_cost
Reads-LoopReads env ll t o h d rest tok p s m r fo tl e k zero l =
    absurd (omega (arith, loop_level-bounds ll))
Reads-LoopReads env ll t o h d rest tok p s m r fo tl e k (suc f) l =
    let c = cost (suc (loop_level ll)) t in
    call-suc env ll f s
    ∙ Gives-next env (operand env ll) (c + 1) s (state_at d tok none p) (o d) f
        (loop env ll s.discard f) r (omega (arith, loop_level-bounds ll))
        (operand-of env ll c s (state_at d tok none p) (o d) (h d rest tok p s fo tl e))
        (λ v. rw (read-discard env d (t ++ rest) s e) (k v f (omega (arith, loop_level-bounds ll))))

-- A loop that ends behind `t`.
pub LoopReads-Reads :
    (env : Env) (ll : Loop) (t : Bytes) (o : Bool → Outcome Value)
    → LoopReads env ll t o
    → Reads env (loop_level ll) t o
unfolding Reads LoopReads cost loop_cost Gives
LoopReads-Reads env ll t o h d rest tok p s fo tl e =
    Gives-more env (parser_at env (loop_level ll)) (1 + loop_cost ll t + 1) (cost (loop_level ll) t)
      s (state_at d tok none p) (o d) (omega (arith, loop_level-bounds ll))
      (call-parser env ll (1 + loop_cost ll t) s (state_at d tok none p) (o d) (λ f l.
        h d rest tok p s 1 (λ v. done (v, state_at d tok none p)) fo (omega arith) e
          (λ v g n. loop-exit env ll d v (state_at d tok none p) g n (unfold state_at in tl)) f l))
