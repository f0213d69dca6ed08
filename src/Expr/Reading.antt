-- ===== src/Expr/Reading.antt =====
-- `rdToken` of rpmio/expression.cc on the text of a tree: the tokens without a value.
pub mod Literals
use rpm.Base.{
  ℕ, zero, suc, ◌-◌, ◌≤◌, ◌≡◌, ◌≢◌, refl, ap, ◌∙◌, Bool, true, false, Option, none, some, [], ◌∷◌,
  ◌++◌, ◌==◌, length, length-append, take, drop_while, All, is_digit, Bytes, arith, if◌then◌else◌,
  Bool-cases, inl, inr,
}
use rpm.Expr.{
  Value, integer, text, Outcome, done, next, of_option, Env, Level, relational, additive,
  multiplicative, is_operator, Token, tok_eof, tok_integer, tok_string, tok_add, tok_minus,
  tok_multiply, tok_divide, tok_open_p, tok_close_p, tok_eq, tok_neq, tok_lt, tok_le, tok_gt,
  tok_ge, tok_not, tok_logical_and, tok_logical_or, tok_ternary_cond, tok_ternary_alt,
}
use rpm.Expr.Lexer.{
  ParseState, Lexed, rd_token, lex, is_space, token_end, ends_integer, ends_string, up_to,
  lex_integer, lex_string, lex_value, behind_quote, get_valuebuf, string_value, valued,
}
use rpm.Expr.Gives.{next-next}
use rpm.Expr.Syntax.{operator_text, logical_text}

-- The first token of a text.
unfoldable pub read : Env → Bool → Bytes → Outcome ParseState
read env d s =
    rd_token env (record { p = s; next_token = tok_eof; token_value = none; discard = d })

pub rd_token-read :
    (env : Env) (state : ParseState) → rd_token env state ≡ read env state.discard state.p
unfolding read rd_token
rd_token-read env state = refl

unfoldable pub state_at : Bool → Token → Option Value → Bytes → ParseState
state_at d tok v rest = record { p = rest; next_token = tok; token_value = v; discard = d }

-- Texts behind a token: they start with a space.
abbrev pub IsSpaced : Bytes → Type 0
IsSpaced [] = Unit
IsSpaced (c ∷ s) = c ≡ 32

-- A text that starts with a token without a value.
pub record Follows (env : Env) (rest : Bytes) (tok : Token) (p : Bytes) : Type 0 where
  pub spaced : IsSpaced rest
  pub reads : (d : Bool) → read env d rest ≡ done (state_at d tok none p)

pub eof-Follows : (env : Env) → Follows env [] tok_eof []
unfolding read rd_token state_at lex is_space
eof-Follows env = record { spaced = tt; reads = λ d. refl }

pub close-Follows : (env : Env) (p : Bytes) → Follows env (32 ∷ b')' ∷ p) tok_close_p p
unfolding read rd_token state_at lex is_space
close-Follows env p = record { spaced = refl; reads = λ d. refl }

pub alt-Follows : (env : Env) (p : Bytes) → Follows env (32 ∷ b':' ∷ p) tok_ternary_alt p
unfolding read rd_token state_at lex is_space
alt-Follows env p = record { spaced = refl; reads = λ d. refl }

pub cond-Follows : (env : Env) (p : Bytes) → Follows env (32 ∷ b'?' ∷ p) tok_ternary_cond p
unfolding read rd_token state_at lex is_space
cond-Follows env p = record { spaced = refl; reads = λ d. refl }

pub and-Follows : (env : Env) (p : Bytes) → Follows env (logical_text true ++ p) tok_logical_and p
unfolding read rd_token state_at logical_text lex is_space
and-Follows env p = record { spaced = refl; reads = λ d. refl }

pub or-Follows : (env : Env) (p : Bytes) → Follows env (logical_text false ++ p) tok_logical_or p
unfolding read rd_token state_at logical_text lex is_space
or-Follows env p = record { spaced = refl; reads = λ d. refl }

pub read_open :
    (env : Env) (d : Bool) (p : Bytes)
    → read env d (32 ∷ b'(' ∷ p) ≡ done (state_at d tok_open_p none p)
unfolding read rd_token state_at lex is_space
read_open env d p = refl

pub read_minus :
    (env : Env) (d : Bool) (p : Bytes)
    → read env d (32 ∷ b'-' ∷ p) ≡ done (state_at d tok_minus none p)
unfolding read rd_token state_at lex is_space
read_minus env d p = refl

pub read_not :
    (env : Env) (d : Bool) (y : Bytes)
    → read env d (32 ∷ b'!' ∷ 32 ∷ y) ≡ done (state_at d tok_not none (32 ∷ y))
unfolding read rd_token state_at lex is_space
read_not env d y = refl

-- The operators whose text is a part of another's need the space behind them.
operator_reads :
    (env : Env) (lv : Level) (op : Token) (y : Bytes) (d : Bool)
    → is_operator lv op ≡ true
    → read env d (operator_text op ++ 32 ∷ y) ≡ done (state_at d op none (32 ∷ y))
unfolding read rd_token state_at operator_text is_operator lex is_space
operator_reads env relational tok_eq y d h = refl
operator_reads env relational tok_neq y d h = refl
operator_reads env relational tok_lt y d h = refl
operator_reads env relational tok_le y d h = refl
operator_reads env relational tok_gt y d h = refl
operator_reads env relational tok_ge y d h = refl
operator_reads env relational _ y d h = absurd (ground arith)
operator_reads env additive tok_add y d h = refl
operator_reads env additive tok_minus y d h = refl
operator_reads env additive _ y d h = absurd (ground arith)
operator_reads env multiplicative tok_multiply y d h = refl
operator_reads env multiplicative tok_divide y d h = refl
operator_reads env multiplicative _ y d h = absurd (ground arith)

operator-IsSpaced :
    (lv : Level) (op : Token) (y : Bytes)
    → is_operator lv op ≡ true
    → IsSpaced (operator_text op ++ y)
unfolding operator_text is_operator
operator-IsSpaced relational tok_eq y h = refl
operator-IsSpaced relational tok_neq y h = refl
operator-IsSpaced relational tok_lt y h = refl
operator-IsSpaced relational tok_le y h = refl
operator-IsSpaced relational tok_gt y h = refl
operator-IsSpaced relational tok_ge y h = refl
operator-IsSpaced relational _ y h = absurd (ground arith)
operator-IsSpaced additive tok_add y h = refl
operator-IsSpaced additive tok_minus y h = refl
operator-IsSpaced additive _ y h = absurd (ground arith)
operator-IsSpaced multiplicative tok_multiply y h = refl
operator-IsSpaced multiplicative tok_divide y h = refl
operator-IsSpaced multiplicative _ y h = absurd (ground arith)

pub operator-Follows :
    (env : Env) (lv : Level) (op : Token) (p y : Bytes)
    → is_operator lv op ≡ true
    → p ≡ 32 ∷ y
    → Follows env (operator_text op ++ p) op p
operator-Follows env lv op p y h e = rw e (record {
  spaced = operator-IsSpaced lv op (32 ∷ y) h;
  reads = λ d. operator_reads env lv op y d h;
})
