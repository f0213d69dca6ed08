-- ===== src/Expr/Literals.antt =====
-- Literals of rpmio/expression.cc: integers, strings and versions.
use rpm.Base.{
  ℕ, zero, suc, ◌≡◌, ◌≢◌, refl, ap, ◌∙◌, Bool, true, false, none, some, [], ◌∷◌, ◌++◌, append_assoc,
  All, is_digit, Bytes, arith, if◌then◌else◌,
}
use rpm.Version.Evr.{rpmver_parse, parse_evr}
use rpm.Expr.{
  Value, integer, text, version, Outcome, done, next, of_option, Env, Token, tok_integer,
  tok_string,
}
use rpm.Expr.Lexer.{ParseState, rd_token, string_value}
use rpm.Expr.Parser.{do_primary, primary_step, literal}
use rpm.Expr.Gives.{Gives, parser_at}
use rpm.Expr.Reading.{read, rd_token-read, state_at, IsSpaced, Follows}
use rpm.Expr.Reading.Literals.{read_number, read_string, read_version}
use rpm.Expr.Reads.{cost, Reads}
use rpm.Expr.Reads.Wrapped.{Opens, read-same}
use rpm.Expr.Syntax.{eval, number, quoted, quoted_version}

literal_at :
    (env : Env) (d : Bool) (tok1 : Token) (v : Value) (rest : Bytes) (tok : Token) (p : Bytes)
    → Follows env rest tok p
    → literal env (state_at d tok1 (some v) rest)
      ≡ next (done v) (λ v. done (v, state_at d tok none p))
unfolding literal state_at next of_option
literal_at env d tok1 v rest tok p fo =
    rw (rd_token-read env (state_at d tok1 (some v) rest), fo.reads d) refl

-- A token with its value.
literal-Reads :
    (env : Env) (tok1 : Token) (t : Bytes) (value : Bool → Value)
    → ((f : ℕ) (s : ParseState) → s.next_token ≡ tok1 → do_primary env (suc f) s ≡ literal env s)
    → ((d : Bool) (rest : Bytes)
        → IsSpaced rest
        → read env d (t ++ rest) ≡ done (state_at d tok1 (some (value d)) rest))
    → Reads env 5 t (λ d. done (value d))
unfolding Reads cost Gives parser_at
literal-Reads env tok1 t value step first d rest tok p s fo tl e zero l = absurd (omega arith)
literal-Reads env tok1 t value step first d rest tok p s fo tl e (suc f) l =
    let s1 = state_at d tok1 (some (value d)) rest in
    let same : s ≡ s1 = read-same env d (t ++ rest) s s1 e (first d rest fo.spaced) in
    rw same (step f s1 (unfold state_at in refl) ∙ literal_at env d tok1 (value d) rest tok p fo)

literal-Opens :
    (env : Env) (tok1 : Token) (y : Bytes) (value : Bool → Value)
    → ((d : Bool) (rest : Bytes)
        → IsSpaced rest
        → read env d (32 ∷ (y ++ rest)) ≡ done (state_at d tok1 (some (value d)) rest))
    → Opens env (32 ∷ y)
literal-Opens env tok1 y value first = record {
  blank = (y, refl);
  first = λ d rest h. (state_at d tok1 (some (value d)) rest, first d rest h);
}

-- A literal is an operand of the last level, whatever level asks for it.
pub record IsLiteral (env : Env) (t : Bytes) (o : Bool → Outcome Value) : Type 0 where
  pub opens : Opens env t
  pub literal_reads : Reads env 5 t o

integer-IsLiteral :
    (env : Env) (y : Bytes) (value : Bool → Value)
    → ((d : Bool) (rest : Bytes)
        → IsSpaced rest
        → read env d (32 ∷ (y ++ rest)) ≡ done (state_at d tok_integer (some (value d)) rest))
    → IsLiteral env (32 ∷ y) (λ d. done (value d))
unfolding rd_token
integer-IsLiteral env y value first = record {
  opens = literal-Opens env tok_integer y value first;
  literal_reads =
      literal-Reads env tok_integer (32 ∷ y) value
        (λ f s e. unfold do_primary primary_step in rw (primary_step, e) refl) first;
}

string-IsLiteral :
    (env : Env) (y : Bytes) (value : Bool → Value)
    → ((d : Bool) (rest : Bytes)
        → IsSpaced rest
        → read env d (32 ∷ (y ++ rest)) ≡ done (state_at d tok_string (some (value d)) rest))
    → IsLiteral env (32 ∷ y) (λ d. done (value d))
unfolding rd_token
string-IsLiteral env y value first = record {
  opens = literal-Opens env tok_string y value first;
  literal_reads =
      literal-Reads env tok_string (32 ∷ y) value
        (λ f s e. unfold do_primary primary_step in rw (primary_step, e) refl) first;
}

pub number-IsLiteral :
    (env : Env) (s : Bytes)
    → env.expand ≡ false
    → s ≢ []
    → All (λ c. is_digit c ≡ true) s
    → IsLiteral env (32 ∷ s) (λ d. eval env d (number s))
unfolding eval
number-IsLiteral env s x n h =
    integer-IsLiteral env s (λ d. integer (env.atoi (if d then [] else s)))
      (λ d rest sp. read_number env d s rest x n h sp)

quote-append : (s rest : Bytes) → (s ++ b'"' ∷ []) ++ rest ≡ s ++ b'"' ∷ rest
quote-append s rest = append_assoc s (b'"' ∷ []) rest

pub quoted-IsLiteral :
    (env : Env) (s : Bytes)
    → env.expand ≡ false
    → All (λ c. c ≢ b'"') s
    → IsLiteral env (32 ∷ b'"' ∷ (s ++ b'"' ∷ [])) (λ d. eval env d (quoted s))
unfolding eval
quoted-IsLiteral env s x h =
    string-IsLiteral env (b'"' ∷ (s ++ b'"' ∷ [])) (λ d. text (if d then [] else s))
      (λ d rest sp.
        ap (λ y. read env d (32 ∷ b'"' ∷ y)) (quote-append s rest) ∙ read_string env d s rest x h)

-- The version of a literal that is discarded or not.
version_of : Bool → Bytes → Value
version_of d s = version (parse_evr (if d then b'0' ∷ [] else s))

string_value-version :
    (d : Bool) (s : Bytes)
    → s ≢ []
    → string_value true d (if d then [] else s) ≡ done (version_of d s)
unfolding string_value rpmver_parse version_of next of_option
string_value-version d [] n = absurd (n refl)
string_value-version true (c ∷ s) n = refl
string_value-version false (c ∷ s) n = refl

eval-version :
    (env : Env) (s : Bytes) (d : Bool)
    → s ≢ []
    → eval env d (quoted_version s) ≡ done (version_of d s)
unfolding rpmver_parse eval version_of next of_option
eval-version env [] d n = absurd (n refl)
eval-version env (c ∷ s) true n = refl
eval-version env (c ∷ s) false n = refl

same_value :
    (env : Env) (t : Bytes) (o o' : Bool → Outcome Value)
    → ((d : Bool) → o' d ≡ o d)
    → IsLiteral env t o
    → IsLiteral env t o'
unfolding Reads Gives
same_value env t o o' same h = record {
  opens = h.opens;
  literal_reads =
      λ d rest tok p s fo tl e f l. rw (same d) (h.literal_reads d rest tok p s fo tl e f l);
}

pub quoted_version-IsLiteral :
    (env : Env) (s : Bytes)
    → env.expand ≡ false
    → s ≢ []
    → All (λ c. c ≢ b'"') s
    → IsLiteral env (32 ∷ b'v' ∷ b'"' ∷ (s ++ b'"' ∷ [])) (λ d. eval env d (quoted_version s))
quoted_version-IsLiteral env s x n h =
    same_value env _ (λ d. done (version_of d s)) (λ d. eval env d (quoted_version s))
      (λ d. eval-version env s d n)
      (string-IsLiteral env (b'v' ∷ b'"' ∷ (s ++ b'"' ∷ [])) (λ d. version_of d s)
        (λ d rest sp.
          ap (λ y. read env d (32 ∷ b'v' ∷ b'"' ∷ y)) (quote-append s rest)
          ∙ (read_version env d s rest x h
              ∙ rw (string_value-version d s n) (unfold next in refl))))
