-- ===== src/Expr/Discard/Choices.antt =====
-- `&&`, `||` and the ternary operator with an operand that is not needed.
use rpm.Base.{
  ◌≡◌, refl, sym, ◌∙◌, Bool, true, false, not, some, arith, if◌then◌else◌, Bool-cases, inl, inr,
}
use rpm.Expr.{
  Value, done, next, Env, boolify, ValueType, type_integer, type_string, type_version, type_of,
  is_type,
}
use rpm.Expr.Parser.{choose, short_circuits, parse_expr}
use rpm.Expr.Meaning.{is_true}
use rpm.Expr.Agrees.{short_circuits-is_true}
use rpm.Expr.Refines.{parse_expr-print}
use rpm.Expr.Types.{same_types, tree_type}
use rpm.Expr.Syntax.{Tree, logical, ternary, eval, select, IsWritable, print}
use rpm.Expr.Discard.{discarded, either-Returns}

same_types_refl : (t : ValueType) → same_types t t ≡ some t
unfolding same_types is_type
same_types_refl type_integer = refl
same_types_refl type_string = refl
same_types_refl type_version = refl

choose-first :
    (env : Env) (is_and : Bool) (v v2 : Value)
    → type_of v2 ≡ type_of v
    → short_circuits env is_and v ≡ true
    → choose env is_and v v2 ≡ done v
unfolding choose short_circuits
choose-first env is_and v v2 h sc =
    let (k1, k2, k, same) =
      either-Returns true v v2 (type_of v) (rw h (same_types_refl (type_of v))) in
    rw same (ground (arith, sc))

select-taken :
    (c : Bool) (v v2 : Value)
    → type_of v2 ≡ type_of v
    → (select c v v2 ≡ done (if c then v else v2)) × (select c v2 v ≡ done (if c then v2 else v))
unfolding select
select-taken c v v2 h =
    let (k1, k2, k, same) =
      either-Returns true v v2 (type_of v) (rw h (same_types_refl (type_of v))) in
    let (k1', k2', k', same') =
      either-Returns true v2 v (type_of v) (rw h (same_types_refl (type_of v))) in
    (rw same refl, rw same' refl)

-- `&&` whose first operand does not hold, and `||` whose first operand holds: the result is the first
-- operand's value, whatever the second operand would do, if it has the same type.
pub rpm_expr-short_circuit :
    (env : Env) (is_and : Bool) (a b : Tree) (v : Value)
    → env.expand ≡ false
    → IsWritable (logical is_and a b)
    → tree_type b ≡ some (type_of v)
    → parse_expr env (print a) ≡ done v
    → is_true v ≡ not is_and
    → parse_expr env (print (logical is_and a b)) ≡ done v
unfolding eval next
rpm_expr-short_circuit env is_and a b v x w ty h decides =
    let sc : short_circuits env is_and v ≡ true =
      ground (arith, short_circuits-is_true env is_and v, decides) in
    let ea : eval env false a ≡ done v = sym (parse_expr-print env a x w.0) ∙ h in
    let (v2, e2, k2) = discarded env b (type_of v) ty in
    parse_expr-print env (logical is_and a b) x w
    ∙ (rw (ea, sc, e2) (choose-first env is_and v v2 k2 sc))

-- The ternary operator gives what the branch that its condition selects gives, whatever the other one
-- would do, if it has the same type.
rpm_expr-branch :
    (env : Env) (c a b : Tree) (v0 v : Value)
    → env.expand ≡ false
    → IsWritable (ternary c a b)
    → parse_expr env (print c) ≡ done v0
    → parse_expr env (print (if boolify v0 then a else b)) ≡ done v
    → tree_type (if boolify v0 then b else a) ≡ some (type_of v)
    → parse_expr env (print (ternary c a b)) ≡ done v
unfolding eval next
rpm_expr-branch env c a b v0 v x w hc h ty =
    let ec : eval env false c ≡ done v0 = sym (parse_expr-print env c x w.0) ∙ hc in
    parse_expr-print env (ternary c a b) x w ∙ elim (Bool-cases (boolify v0)) [
      | inl t ↦
          let ea : eval env false a ≡ done v = sym (parse_expr-print env a x w.1) ∙ (rw t at h) in
          let (v2, e2, k2) = discarded env b (type_of v) (rw t at ty) in
          rw (ec, t, ea, e2) (select-taken true v v2 k2).0
      | inr t ↦
          let eb : eval env false b ≡ done v = sym (parse_expr-print env b x w.2) ∙ (rw t at h) in
          let (v2, e2, k2) = discarded env a (type_of v) (rw t at ty) in
          rw (ec, t, e2, eb) (select-taken false v v2 k2).1
    ]
