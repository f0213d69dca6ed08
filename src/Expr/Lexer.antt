-- ===== src/Expr/Lexer.antt =====
-- `rdToken` of rpmio/expression.cc: the next token of an expression.
use rpm.Base.{
  ℕ, zero, suc, ◌-◌, Bool, true, false, not, ◌&&◌, ◌||◌, Option, none, some, [], ◌∷◌, ◌==◌, length,
  take, drop_while, is_alpha, is_digit, is_empty, Bytes, if◌then◌else◌,
}
use rpm.Macro.{Match, found, unmatched, overrun, find_macro_end}
use rpm.Version.Evr.{rpmver_parse}
use rpm.Expr.{
  Value, integer, text, version, Outcome, done, failed, fault, next, of_option, Env, Token, tok_eof,
  tok_integer, tok_string, tok_add, tok_minus, tok_multiply, tok_divide, tok_open_p, tok_close_p,
  tok_eq, tok_neq, tok_lt, tok_le, tok_gt, tok_ge, tok_not, tok_logical_and, tok_logical_or,
  tok_ternary_cond, tok_ternary_alt, tok_comma, tok_function,
}

-- `struct _parseState`: `p` is the text from the position on, `discard` the flag RPMEXPR_DISCARD.
pub record ParseState : Type 0 where
  pub p : Bytes
  pub next_token : Token
  pub token_value : Option Value
  pub discard : Bool

-- A token with its value, and the text behind it.
pub record Lexed : Type 0 where
  pub token : Token
  pub value : Option Value
  pub rest : Bytes

-- `risspace`
unfoldable pub is_space : ℕ → Bool
is_space c = c == 32 || c == 9 || c == 10 || c == 13 || c == 12 || c == 11

unfoldable pub at_match : Match → Outcome Bytes
at_match (found r) = done r
at_match unmatched = done []
at_match overrun = fault

-- `skipMacro`, behind the first '%'.
unfoldable pub skip_macro : Bytes → Outcome Bytes
unfolding at_match
skip_macro [] = at_match (find_macro_end [])
skip_macro (c ∷ p) = if c == b'%' then done p else at_match (find_macro_end (c ∷ p))

-- The loops over the characters of an integer and of a string: where they stop. There is fuel for
-- each character.
unfoldable pub token_end : ℕ → (ℕ → Bool) → Bool → Bytes → Outcome Bytes
token_end zero stops expand p = done p
token_end (suc fuel) stops expand [] = done []
token_end (suc fuel) stops expand (c ∷ p) = elim (c == b'%' && expand) [
  | true ↦ next (skip_macro p) (token_end fuel stops expand)
  | false ↦ elim (stops c) [ true ↦ done (c ∷ p) | false ↦ token_end fuel stops expand p ]
]

unfoldable pub ends_integer : ℕ → Bool
ends_integer c = not (is_digit c)

unfoldable pub ends_string : ℕ → Bool
ends_string c = c == b'"'

-- `getValuebuf`
unfoldable pub get_valuebuf : Env → Bool → Bytes → Option Bytes
get_valuebuf env discard s =
    if discard
    then some []
    else if not (is_empty s) && env.expand
    then env.expand_macros s
    else some s

unfoldable pub all_digits : Bytes → Bool
all_digits [] = true
all_digits (c ∷ s) = is_digit c && all_digits s

-- `wellformedInteger`
unfoldable pub wellformed_integer : Bytes → Bool
unfolding all_digits
wellformed_integer [] = true
wellformed_integer (c ∷ s) = if c == b'-' then all_digits s else all_digits (c ∷ s)

unfoldable pub token : Token → Bytes → Outcome Lexed
token tok rest = done (record { token = tok; value = none; rest = rest })

unfoldable pub valued : Token → Value → Bytes → Outcome Lexed
valued tok v rest = done (record { token = tok; value = some v; rest = rest })

-- The text up to where it is left at `rest`.
unfoldable pub up_to : Bytes → Bytes → Bytes
up_to s rest = take (length s - length rest) s

unfoldable pub lex_integer : Env → Bool → Bytes → Outcome Lexed
lex_integer env discard s = next (token_end (length s) ends_integer env.expand s) (λ rest.
    next (of_option (get_valuebuf env discard (up_to s rest))) (λ temp.
      if env.expand && not (wellformed_integer temp)
      then failed
      else valued tok_integer (integer (env.atoi temp)) rest))

-- The value of a string or, where `is_version` is, of a version.
unfoldable pub string_value : Bool → Bool → Bytes → Outcome Value
string_value false discard temp = done (text temp)
string_value true discard temp =
    next (of_option (rpmver_parse (some (if discard then b'0' ∷ [] else temp))))
      (λ v. done (version v))

unfoldable pub behind_quote : Env → Bool → Bool → Bytes → Bytes → Outcome Lexed
behind_quote env is_version discard s [] = failed
behind_quote env is_version discard s (c ∷ rest) =
    next (of_option (get_valuebuf env discard (up_to s (c ∷ rest))))
      (λ temp. next (string_value is_version discard temp) (λ v. valued tok_string v rest))

-- A string or a version behind its first quote.
unfoldable pub lex_string : Env → Bool → Bool → Bytes → Outcome Lexed
lex_string env is_version discard s =
    next (token_end (length s) ends_string env.expand s) (behind_quote env is_version discard s)

unfoldable pub is_name_part : ℕ → Bool
is_name_part c = is_alpha c || is_digit c || c == b'_' || c == b'.' || c == b':'

-- `isFunctionCall`, and the token of the call.
unfoldable pub lex_function : Bytes → Outcome Lexed
lex_function [] = failed
lex_function (c ∷ s) = elim (drop_while is_name_part s) [
  | [] ↦ failed
  | x ∷ rest ↦
      if x == b'(' then valued tok_function (text (up_to (c ∷ s) (x ∷ rest))) rest else failed
]

unfoldable pub starts_with : ℕ → Bytes → Bool
starts_with c [] = false
starts_with c (x ∷ s) = x == c

unfoldable pub behind : Bytes → Bytes
behind [] = []
behind (x ∷ s) = s

-- A token of two characters, or of its first one alone.
unfoldable pub one_or_two : ℕ → Token → Token → Bytes → Outcome Lexed
one_or_two c two one s = if starts_with c s then token two (behind s) else token one s

unfoldable pub only_two : ℕ → Token → Bytes → Outcome Lexed
only_two c two s = if starts_with c s then token two (behind s) else failed

-- The last cases of the switch.
unfoldable pub lex_value : Env → Bool → ℕ → Bytes → Outcome Lexed
unfolding starts_with behind
lex_value env discard c s =
    if is_digit c || (c == b'%' && env.expand)
    then lex_integer env discard (c ∷ s)
    else if c == b'"'
    then lex_string env false discard s
    else if c == b'v' && starts_with b'"' s
    then lex_string env true discard (behind s)
    else if is_alpha c
    then lex_function (c ∷ s)
    else failed

unfoldable pub lex : Env → Bool → Bytes → Outcome Lexed
unfolding lex_value one_or_two only_two starts_with behind token
lex env discard [] = token tok_eof []
lex env discard (c ∷ s) =
    if c == b'+'
    then token tok_add s
    else if c == b'-'
    then token tok_minus s
    else if c == b'*'
    then token tok_multiply s
    else if c == b'/'
    then token tok_divide s
    else if c == b'('
    then token tok_open_p s
    else if c == b')'
    then token tok_close_p s
    else if c == b'='
    then only_two b'=' tok_eq s
    else if c == b'!'
    then one_or_two b'=' tok_neq tok_not s
    else if c == b'<'
    then one_or_two b'=' tok_le tok_lt s
    else if c == b'>'
    then one_or_two b'=' tok_ge tok_gt s
    else if c == b'&'
    then only_two b'&' tok_logical_and s
    else if c == b'|'
    then only_two b'|' tok_logical_or s
    else if c == b'?'
    then token tok_ternary_cond s
    else if c == b':'
    then token tok_ternary_alt s
    else if c == b','
    then token tok_comma s
    else lex_value env discard c s

-- `rdToken`
unfoldable pub rd_token : Env → ParseState → Outcome ParseState
unfolding next
rd_token env state =
    next (lex env state.discard (drop_while is_space state.p))
      (λ l. done (record state { p = l.rest; next_token = l.token; token_value = l.value }))
