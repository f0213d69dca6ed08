-- ===== src/Expr/Reading/Literals.antt =====
-- `rdToken` of rpmio/expression.cc on the text of a tree: the literals.
use rpm.Base.{
  ℕ, zero, suc, ◌-◌, ◌≤◌, ◌≡◌, ◌≢◌, refl, ap, ◌∙◌, Bool, true, false, some, [], ◌∷◌, ◌++◌, ◌==◌,
  length, length-append, take, drop_while, All, is_digit, Bytes, arith, if◌then◌else◌, Bool-cases,
  inl, inr,
}
use rpm.Expr.{integer, text, done, next, of_option, Env, tok_integer, tok_string}
use rpm.Expr.Lexer.{
  Lexed, rd_token, lex, is_space, token_end, ends_integer, ends_string, up_to, lex_integer,
  lex_string, lex_value, behind_quote, get_valuebuf, string_value, valued,
}
use rpm.Expr.Gives.{next-next}
use rpm.Expr.Reading.{IsSpaced, read, state_at}

take_prefix : (s rest : Bytes) → take (length s) (s ++ rest) ≡ s
take_prefix [] rest = refl
take_prefix (c ∷ s) rest = ap (λ x. c ∷ x) (take_prefix s rest)

up_to-append : (s rest : Bytes) → up_to (s ++ rest) rest ≡ s
unfolding up_to
up_to-append s rest =
    let n : length (s ++ rest) - length rest ≡ length s = omega (arith, length-append s rest) in
    rw n (take_prefix s rest)

token_end-stop :
    (f : ℕ) (stops : ℕ → Bool) (c : ℕ) (rest : Bytes)
    → stops c ≡ true
    → token_end f stops false (c ∷ rest) ≡ done (c ∷ rest)
unfolding token_end
token_end-stop zero stops c rest h = refl
token_end-stop (suc f) stops c rest h = elim (Bool-cases (c == b'%')) [
  | inl e ↦ rw (token_end, e, h) refl
  | inr e ↦ rw (token_end, e, h) refl
]

-- The loops over a literal stop behind it.
token_end-append :
    (f : ℕ) (stops : ℕ → Bool) (s rest : Bytes)
    → All (λ c. stops c ≡ false) s
    → length s ≤ f
    → ((g : ℕ) → token_end g stops false rest ≡ done rest)
    → token_end f stops false (s ++ rest) ≡ done rest
unfolding token_end
token_end-append f stops [] rest h l e = e f
token_end-append zero stops (c ∷ s) rest h l e = absurd (omega arith)
token_end-append (suc f) stops (c ∷ s) rest (h, hs) l e = elim (Bool-cases (c == b'%')) [
  | inl p ↦ rw (token_end, p, h) (token_end-append f stops s rest hs (omega arith) e)
  | inr p ↦ rw (token_end, p, h) (token_end-append f stops s rest hs (omega arith) e)
]

integer_ends :
    (rest : Bytes) (g : ℕ) → IsSpaced rest → token_end g ends_integer false rest ≡ done rest
unfolding token_end
integer_ends [] zero h = refl
integer_ends [] (suc g) h = refl
integer_ends (c ∷ rest) g h =
    token_end-stop g ends_integer c rest (rw h (unfold ends_integer is_digit in refl))

digits_go_on : (s : Bytes) → All (λ c. is_digit c ≡ true) s → All (λ c. ends_integer c ≡ false) s
unfolding ends_integer
digits_go_on [] h = tt
digits_go_on (c ∷ s) (h, hs) = (rw h refl, digits_go_on s hs)

quotes_go_on : (s : Bytes) → All (λ c. c ≢ b'"') s → All (λ c. ends_string c ≡ false) s
unfolding ends_string
quotes_go_on [] h = tt
quotes_go_on (c ∷ s) (h, hs) = (ground (arith, h), quotes_go_on s hs)

get_valuebuf-plain :
    (env : Env) (d : Bool) (s : Bytes)
    → env.expand ≡ false
    → get_valuebuf env d s ≡ some (if d then [] else s)
unfolding get_valuebuf
get_valuebuf-plain env d s h = ground (arith, h)

lex_integer-append :
    (env : Env) (d : Bool) (s rest : Bytes)
    → env.expand ≡ false
    → All (λ c. is_digit c ≡ true) s
    → IsSpaced rest
    → lex_integer env d (s ++ rest)
      ≡ valued tok_integer (integer (env.atoi (if d then [] else s))) rest
unfolding lex_integer next of_option
lex_integer-append env d s rest x h sp =
    let e : token_end (length (s ++ rest)) ends_integer env.expand (s ++ rest) ≡ done rest = rw x (
      token_end-append (length (s ++ rest)) ends_integer s rest (digits_go_on s h)
        (omega (arith, length-append s rest)) (λ g. integer_ends rest g sp)) in
    rw (lex_integer, e, up_to-append s rest, get_valuebuf-plain env d s x, x) refl

lex-digit :
    (env : Env) (d : Bool) (c : ℕ) (s : Bytes)
    → is_digit c ≡ true
    → lex env d (drop_while is_space (c ∷ s)) ≡ lex_integer env d (c ∷ s)
unfolding lex lex_value is_digit is_space
lex-digit env d c s h = ground (arith, h)

lex_string-append :
    (env : Env) (is_version d : Bool) (s rest : Bytes)
    → env.expand ≡ false
    → All (λ c. c ≢ b'"') s
    → lex_string env is_version d (s ++ b'"' ∷ rest)
      ≡ next (string_value is_version d (if d then [] else s)) (λ v. valued tok_string v rest)
unfolding lex_string behind_quote next of_option
lex_string-append env is_version d s rest x h =
    let all = s ++ b'"' ∷ rest in
    let e : token_end (length all) ends_string env.expand all ≡ done (b'"' ∷ rest) = rw x (
      token_end-append (length all) ends_string s (b'"' ∷ rest) (quotes_go_on s h)
        (omega (arith, length-append s (b'"' ∷ rest)))
        (λ g. token_end-stop g ends_string b'"' rest (unfold ends_string in refl))) in
    rw (lex_string, e, up_to-append s (b'"' ∷ rest), get_valuebuf-plain env d s x) refl

read_of :
    (env : Env) (d : Bool) (s : Bytes) (l : Lexed)
    → lex env d (drop_while is_space s) ≡ done l
    → read env d s ≡ done (state_at d l.token l.value l.rest)
unfolding read rd_token state_at next
read_of env d s l e = rw (read, rd_token, e) refl

behind_space : (s : Bytes) → drop_while is_space (32 ∷ s) ≡ drop_while is_space s
unfolding is_space
behind_space s = refl

pub read_number :
    (env : Env) (d : Bool) (s rest : Bytes)
    → env.expand ≡ false
    → s ≢ []
    → All (λ c. is_digit c ≡ true) s
    → IsSpaced rest
    → read env d (32 ∷ (s ++ rest))
      ≡ done (state_at d tok_integer (some (integer (env.atoi (if d then [] else s)))) rest)
read_number env d [] rest x n h sp = absurd (n refl)
read_number env d (c ∷ s) rest x n h sp =
    read_of env d (32 ∷ c ∷ (s ++ rest))
      (record {
        token = tok_integer;
        value = some (integer (env.atoi (if d then [] else c ∷ s)));
        rest = rest;
      })
      (ap (lex env d) (behind_space (c ∷ (s ++ rest)))
        ∙ (lex-digit env d c (s ++ rest) h.0
            ∙ lex_integer-append env d (c ∷ s) rest x h sp
            ∙ unfold valued in refl))

pub read_string :
    (env : Env) (d : Bool) (s rest : Bytes)
    → env.expand ≡ false
    → All (λ c. c ≢ b'"') s
    → read env d (32 ∷ b'"' ∷ (s ++ b'"' ∷ rest))
      ≡ done (state_at d tok_string (some (text (if d then [] else s))) rest)
unfolding read rd_token state_at lex lex_value is_space is_digit
read_string env d s rest x h =
    rw (lex_string-append env false d s rest x h) (unfold valued next string_value in refl)

pub read_version :
    (env : Env) (d : Bool) (s rest : Bytes)
    → env.expand ≡ false
    → All (λ c. c ≢ b'"') s
    → read env d (32 ∷ b'v' ∷ b'"' ∷ (s ++ b'"' ∷ rest))
      ≡ next
          (string_value true d (if d then [] else s))
          (λ v. done (state_at d tok_string (some v) rest))
unfolding read rd_token state_at lex lex_value is_space is_digit
read_version env d s rest x h = rw (lex_string-append env true d s rest x h) (
    next-next (string_value true d (if d then [] else s)) (λ v. valued tok_string v rest) _
    ∙ unfold valued next in refl)
