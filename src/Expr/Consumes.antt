-- ===== src/Expr/Consumes.antt =====
-- `rdToken` of rpmio/expression.cc: how much of the text is left behind a token.
use rpm.Base.{
  ℕ, suc, ◌+◌, ◌≤◌, ◌<◌, ◌≡◌, Bool, true, false, not, ◌&&◌, ◌||◌, Option, none, some, [], ◌∷◌, ◌==◌,
  length, drop_while, length-drop_while, is_digit, is_alpha, Bytes, arith, if◌then◌else◌,
  Bool-cases, inl, inr,
}
use rpm.Expr.{
  Value, Outcome, done, failed, of_option, Env, Token, tok_integer, tok_string, tok_function,
  integer, text, version, tok_add, tok_minus, tok_multiply, tok_divide, tok_open_p, tok_close_p,
  tok_eq, tok_neq, tok_lt, tok_le, tok_gt, tok_ge, tok_not, tok_logical_and, tok_logical_or,
  tok_ternary_cond, tok_ternary_alt, tok_comma,
}
use rpm.Version.Evr.{rpmver_parse}
use rpm.Expr.Lexer.{
  ParseState, Lexed, is_space, skip_macro, token_end, ends_integer, ends_string, get_valuebuf,
  wellformed_integer, token, valued, up_to, lex_integer, string_value, behind_quote, lex_string,
  is_name_part, lex_function, starts_with, behind, one_or_two, only_two, lex_value, lex, rd_token,
}
use rpm.Expr.Parser.{is_eof}
use rpm.Expr.Within.{Within, Within-next, Within-more, skip_macro-length, token_end-length}

-- A token and what is behind it.
unfoldable pub token_weight : Token → ℕ
unfolding is_eof
token_weight tok = if is_eof tok then 0 else 1

unfoldable pub lexed_weight : Lexed → ℕ
lexed_weight l = length l.rest + token_weight l.token

token_weight_le : (tok : Token) → token_weight tok ≤ 1
unfolding token_weight
token_weight_le tok = ground arith

token-Within :
    (tok : Token) (rest : Bytes) (n : ℕ) → length rest < n → Within lexed_weight n (token tok rest)
unfolding token lexed_weight
token-Within tok rest n h = omega (arith, token_weight_le tok)

valued-Within :
    (tok : Token) (v : Value) (rest : Bytes) (n : ℕ)
    → length rest < n
    → Within lexed_weight n (valued tok v rest)
unfolding valued lexed_weight
valued-Within tok v rest n h = omega (arith, token_weight_le tok)

-- What comes of an option has any size.
pub of_option-Within : {A : Type 0} (o : Option A) → Within (λ a. 0) 0 (of_option o)
unfolding of_option
of_option-Within none = tt
of_option-Within (some a) = omega arith

pub if-Within :
    {A : Type 0} (size : A → ℕ) (n : ℕ) (b : Bool) (x y : Outcome A)
    → Within size n x
    → Within size n y
    → Within size n (if b then x else y)
if-Within size n true x y h g = h
if-Within size n false x y h g = g

first_consumes :
    (f : ℕ) (expand : Bool) (c : ℕ) (s : Bytes)
    → (is_digit c || (c == b'%' && expand)) ≡ true
    → Within length (length s) (token_end (suc f) ends_integer expand (c ∷ s))
unfolding token_end ends_integer
first_consumes f expand c s h = elim (Bool-cases (c == b'%' && expand)) [
  | inl e ↦
      rw (token_end, e)
        (Within-next length length (length s) (length s) (skip_macro s)
          (token_end f ends_integer expand) (skip_macro-length s)
          (λ r l.
            Within-more length (length r) (length s) (token_end f ends_integer expand r) l
              (token_end-length f ends_integer expand r)))
  | inr e ↦
      let digit : is_digit c ≡ true = ground (arith, h, e) in
      rw (token_end, e, digit) (token_end-length f ends_integer expand s)
]

-- An integer starts with a digit, or with a macro.
lex_integer-Within :
    (env : Env) (d : Bool) (c : ℕ) (s : Bytes)
    → (is_digit c || (c == b'%' && env.expand)) ≡ true
    → Within lexed_weight (length (c ∷ s)) (lex_integer env d (c ∷ s))
unfolding lex_integer token_end
lex_integer-Within env d c s h =
    Within-next length lexed_weight (length s) (length (c ∷ s))
      (token_end (length (c ∷ s)) ends_integer env.expand (c ∷ s)) _
      (first_consumes (length s) env.expand c s h)
      (λ rest l.
        Within-next (λ t. 0) lexed_weight 0 (length (c ∷ s))
          (of_option (get_valuebuf env d (up_to (c ∷ s) rest))) _
          (of_option-Within (get_valuebuf env d (up_to (c ∷ s) rest)))
          (λ temp k.
            if-Within lexed_weight (length (c ∷ s)) (env.expand && not (wellformed_integer temp))
              failed _ tt
              (valued-Within tok_integer (integer (env.atoi temp)) rest (length (c ∷ s))
                (omega arith))))

string_value-Within :
    (is_version d : Bool) (temp : Bytes) → Within (λ v. 0) 0 (string_value is_version d temp)
unfolding string_value
string_value-Within false d temp = omega arith
string_value-Within true d temp =
    let parsed = rpmver_parse (some (if d then b'0' ∷ [] else temp)) in
    Within-next (λ v. 0) (λ v. 0) 0 0 (of_option parsed) (λ v. done (version v))
      (of_option-Within parsed) (λ v l. omega arith)

behind_quote-Within :
    (env : Env) (is_version d : Bool) (s rest : Bytes) (n : ℕ)
    → length rest ≤ n
    → Within lexed_weight n (behind_quote env is_version d s rest)
unfolding behind_quote
behind_quote-Within env is_version d s [] n h = tt
behind_quote-Within env is_version d s (c ∷ rest) n h =
    Within-next (λ t. 0) lexed_weight 0 n (of_option (get_valuebuf env d (up_to s (c ∷ rest)))) _
      (of_option-Within (get_valuebuf env d (up_to s (c ∷ rest))))
      (λ temp k.
        Within-next (λ v. 0) lexed_weight 0 n (string_value is_version d temp) _
          (string_value-Within is_version d temp)
          (λ v k'. valued-Within tok_string v rest n (omega arith)))

lex_string-Within :
    (env : Env) (is_version d : Bool) (s : Bytes)
    → Within lexed_weight (length s) (lex_string env is_version d s)
unfolding lex_string
lex_string-Within env is_version d s =
    Within-next length lexed_weight (length s) (length s)
      (token_end (length s) ends_string env.expand s) (behind_quote env is_version d s)
      (token_end-length (length s) ends_string env.expand s)
      (λ rest l. behind_quote-Within env is_version d s rest (length s) l)

call-Within :
    (c : ℕ) (s r : Bytes)
    → length r ≤ length s
    → Within lexed_weight (length (c ∷ s)) (elim r [
      | [] ↦ failed
      | x ∷ rest ↦
          if x == b'(' then valued tok_function (text (up_to (c ∷ s) (x ∷ rest))) rest else failed
    ])
call-Within c s [] h = tt
call-Within c s (x ∷ rest) h =
    if-Within lexed_weight (length (c ∷ s)) (x == b'(') _ failed
      (valued-Within tok_function (text (up_to (c ∷ s) (x ∷ rest))) rest (length (c ∷ s))
        (omega arith))
      tt

lex_function-Within : (s : Bytes) → Within lexed_weight (length s) (lex_function s)
unfolding lex_function
lex_function-Within [] = tt
lex_function-Within (c ∷ s) =
    call-Within c s (drop_while is_name_part s) (length-drop_while is_name_part s)

behind-length : (s : Bytes) → length (behind s) ≤ length s
unfolding behind
behind-length [] = omega arith
behind-length (c ∷ s) = omega arith

one_or_two-Within :
    (c : ℕ) (two one : Token) (s : Bytes) (n : ℕ)
    → length s < n
    → Within lexed_weight n (one_or_two c two one s)
unfolding one_or_two
one_or_two-Within c two one s n h =
    if-Within lexed_weight n (starts_with c s) _ _
      (token-Within two (behind s) n (omega (arith, behind-length s))) (token-Within one s n h)

only_two-Within :
    (c : ℕ) (two : Token) (s : Bytes) (n : ℕ)
    → length s < n
    → Within lexed_weight n (only_two c two s)
unfolding only_two
only_two-Within c two s n h =
    if-Within lexed_weight n (starts_with c s) _ failed
      (token-Within two (behind s) n (omega (arith, behind-length s))) tt

lex_value-Within :
    (env : Env) (d : Bool) (c : ℕ) (s : Bytes)
    → Within lexed_weight (length (c ∷ s)) (lex_value env d c s)
unfolding lex_value
lex_value-Within env d c s =
    let n = length (c ∷ s) in
    elim (Bool-cases (is_digit c || (c == b'%' && env.expand))) [
      | inl e ↦ rw (lex_value, e) (lex_integer-Within env d c s e)
      | inr e ↦
          rw (lex_value, e)
            (if-Within lexed_weight n (c == b'"') _ _
              (Within-more lexed_weight (length s) n _ (omega arith)
                (lex_string-Within env false d s))
              (if-Within lexed_weight n (c == b'v' && starts_with b'"' s) _ _
                (Within-more lexed_weight (length (behind s)) n _ (omega (arith, behind-length s))
                  (lex_string-Within env true d (behind s)))
                (if-Within lexed_weight n (is_alpha c) _ failed (lex_function-Within (c ∷ s)) tt)))
    ]

lex-Within : (env : Env) (d : Bool) (s : Bytes) → Within lexed_weight (length s) (lex env d s)
unfolding lex
lex-Within env d [] = unfold token lexed_weight token_weight is_eof in omega arith
lex-Within env d (c ∷ s) =
    let n = length (c ∷ s) in
    let one : (tok : Token) → Within lexed_weight n (token tok s) =
      λ tok. token-Within tok s n (omega arith) in
    let test : (b : Bool) (x y : Outcome Lexed)
        → Within lexed_weight n x
        → Within lexed_weight n y
        → Within lexed_weight n (if b then x else y) =
      λ b x y. if-Within lexed_weight n b x y in
    test (c == b'+') _ _ (one tok_add) (
      test (c == b'-') _ _ (one tok_minus) (
        test (c == b'*') _ _ (one tok_multiply) (
          test (c == b'/') _ _ (one tok_divide) (
            test (c == b'(') _ _ (one tok_open_p) (
              test (c == b')') _ _ (one tok_close_p) (
                test (c == b'=') _ _ (only_two-Within b'=' tok_eq s n (omega arith)) (
                  test (c == b'!') _ _ (one_or_two-Within b'=' tok_neq tok_not s n (omega arith)) (
                    test (c == b'<') _ _ (one_or_two-Within b'=' tok_le tok_lt s n (omega arith)) (
                      test (c == b'>') _ _ (one_or_two-Within b'=' tok_ge tok_gt s n (omega arith))
                        (test (c == b'&') _ _
                          (only_two-Within b'&' tok_logical_and s n (omega arith))
                          (test (c == b'|') _ _
                            (only_two-Within b'|' tok_logical_or s n (omega arith))
                            (test (c == b'?') _ _ (one tok_ternary_cond) (
                              test (c == b':') _ _ (one tok_ternary_alt) (
                                test (c == b',') _ _ (one tok_comma)
                                  (lex_value-Within env d c s)))))))))))))))

-- What is left for the parser to read.
unfoldable pub weight : ParseState → ℕ
weight state = length state.p + token_weight state.next_token

pub rd_token-Within :
    (env : Env) (state : ParseState) → Within weight (length state.p) (rd_token env state)
unfolding rd_token
rd_token-Within env state =
    let t = drop_while is_space state.p in
    Within-next lexed_weight weight (length t) (length state.p) (lex env state.discard t) _
      (lex-Within env state.discard t)
      (λ l k. unfold weight lexed_weight in omega (arith, length-drop_while is_space state.p))
