-- ===== src/Expr/Refines.antt =====
-- `rpmExprBoolFlags` and `rpmExprStrFlags` against the trees.
use rpm.Base.{ℕ, ◌+◌, ◌*◌, ◌≤◌, ◌≡◌, refl, ap, ◌∙◌, false, [], ◌++◌, append-nil, length, arith}
use rpm.Expr.{Value, Outcome, done, failed, fault, out_of_fuel, next, Env, tok_eof}
use rpm.Expr.Parser.{
  parse, parse_expr, at_eof, is_eof, rpm_expr_bool_flags, rpm_expr_str_flags, value_text,
}
use rpm.Expr.Gives.{token_level, parser_at}
use rpm.Expr.Reading.{read, state_at, eof-Follows}
use rpm.Expr.Reads.{cost}
use rpm.Expr.Reads.Wrapped.{read-then}
use rpm.Expr.Gives.{next-cong}
use rpm.Expr.Meaning.{is_true, meaning}
use rpm.Expr.Agrees.{boolify-is_true, eval-meaning}
use rpm.Expr.Sound.{print-Reads}
use rpm.Expr.Sound.Operators.{IsWritable-Sound}
use rpm.Expr.Syntax.{Tree, eval, print, IsWritable}

next_self : (o : Outcome Value) → next o (λ v. done v) ≡ o
unfolding next
next_self (done v) = refl
next_self failed = refl
next_self fault = refl
next_self out_of_fuel = refl

-- The whole text.
parse-print :
    (env : Env) (e : Tree) (f : ℕ)
    → env.expand ≡ false
    → IsWritable e
    → cost 0 (print e) ≤ f
    → parse env f (print e) ≡ eval env false e
unfolding parse parser_at read
parse-print env e f x w l =
    let h = IsWritable-Sound env x e w in
    let all : print e ++ [] ≡ print e = append-nil (print e) in
    let reads =
      read-then env 0 (print e) (λ d. eval env d e) h.opens (print-Reads env e h) false [] tok_eof
        [] f (at_eof env) (λ v. done v) (eof-Follows env) (unfold token_level in omega arith) l
        (λ v. unfold at_eof is_eof state_at in refl) in
    (rw all at reads) ∙ next_self (eval env false e)

pub parse_expr-print :
    (env : Env) (e : Tree)
    → env.expand ≡ false
    → IsWritable e
    → parse_expr env (print e) ≡ eval env false e
unfolding parse_expr
parse_expr-print env e x w =
    parse-print env e (12 * length (print e) + 24) x w (unfold cost in omega arith)

-- The text of a tree whose literals can be written, where macros are not expanded in them: the calls
-- return what the tree means, as a truth value and as a text, and fail or trap where it does.
pub rpm_expr-print :
    (env : Env) (e : Tree)
    → env.expand ≡ false
    → IsWritable e
    → (rpm_expr_bool_flags env (print e) ≡ next (meaning env false e) (λ v. done (is_true v)))
      × (rpm_expr_str_flags env (print e)
          ≡ next (meaning env false e) (λ v. done (value_text env v)))
unfolding rpm_expr_bool_flags rpm_expr_str_flags
rpm_expr-print env e x w =
    let same = parse_expr-print env e x w ∙ eval-meaning env false e w in
    (
      rw same (next-cong (meaning env false e) _ _ (λ v. ap (λ b. done b) (boolify-is_true v))),
      rw same refl,
    )
