-- ===== src/Macro/Table/Copies.antt =====
-- `copyMacros` of rpmio/macro.cc, which puts the macros of the command line over the loaded ones.
use rpm.Base.{
  ℕ, ◌≡◌, refl, ap, ◌∙◌, List, [], ◌∷◌, ◌==◌, Bytes, arith, if◌then◌else◌, Bool-cases, inl, inr,
}
use rpm.Macro.Table.{
  MacroEntry, MacroTable, same_name, definitions, push_macro, push_macro_any, unused, copy_top,
  copy_macros,
}
use rpm.Macro.Table.Stacks.{IsWellFormed, same_name-same, definitions-push_entry}

-- The stack of a name in the target, when its stack in the source is `src`.
unfoldable pub copied : ℕ → List MacroEntry → List MacroEntry → List MacroEntry
copied level [] dst = dst
copied level (me ∷ src) dst =
    if me.level == 0
    then dst
    else record {
      opts = me.opts;
      body = me.body;
      func = 0;
      priv = 0;
      nargs = 0;
      flags = unused me.flags;
      level = level;
    }
      ∷ dst

definitions-copy_top :
    (level : ℕ) (m n : Bytes) (stack : List MacroEntry) (dst : MacroTable)
    → definitions m (copy_top level n stack dst)
      ≡ (if same_name m n then copied level stack (definitions m dst) else definitions m dst)
unfolding copy_top copied
definitions-copy_top level m n [] dst = ground arith
definitions-copy_top level m n (me ∷ stack) dst = elim (Bool-cases (me.level == 0)) [
  | inl e ↦ rw e (ground arith)
  | inr e ↦ rw e (unfold push_macro push_macro_any in definitions-push_entry m n _ dst)
]

-- Each macro of the source whose newest definition is not a builtin is defined once more in the target,
-- at the given level; the others stay as they are.
pub definitions-copy_macros :
    (level : ℕ) (m : Bytes) (src dst : MacroTable)
    → IsWellFormed src
    → definitions m (copy_macros src dst level)
      ≡ copied level (definitions m src) (definitions m dst)
unfolding copy_macros definitions
definitions-copy_macros level m [] dst w = unfold copied in refl
definitions-copy_macros level m (s ∷ src) dst (h, k, w) =
    definitions-copy_macros level m src (copy_top level s.name s.stack dst) w
    ∙ (ap (copied level (definitions m src)) (definitions-copy_top level m s.name s.stack dst)
        ∙ elim (Bool-cases (same_name m s.name)) [
          | inl e ↦
              let none_left : definitions m src ≡ [] = rw (same_name-same m s.name e) k in
              rw (e, none_left) (unfold copied in refl)
          | inr e ↦ rw e refl
        ])
