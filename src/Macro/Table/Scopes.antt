-- ===== src/Macro/Table/Scopes.antt =====
-- What the body of a parametric macro does to the table of rpmio/macro.cc, and `freeArgs` behind it.
use rpm.Base.{
  ℕ, suc, ◌≤◌, ◌≡◌, refl, sym, ap, ◌∙◌, Bool, true, Option, List, [], ◌∷◌, ltb, leb, Bytes, arith,
  Bool-cases, inl, inr,
}
use rpm.Macro.Table.{
  MacroEntry, MacroTable, same_name, definitions, push_macro_any, unused, pop, pop_macro,
  pop_scoped, free_stack, free_entries, free_args,
}
use rpm.Macro.Table.Stacks.{
  IsWellFormed, same_name-same, definitions-push_entry, definitions-pop_macro,
  definitions-free_entries, push_entry-IsWellFormed, pop_macro-IsWellFormed,
  free_entries-IsWellFormed,
}

-- The newest definition, if any, belongs to the level or to one above it.
unfoldable pub is_scoped : ℕ → List MacroEntry → Bool
is_scoped level [] = true
is_scoped level (me ∷ stack) = leb level me.level

unfoldable pub is_below : ℕ → List MacroEntry → Bool
is_below level [] = true
is_below level (me ∷ stack) = ltb me.level level

-- The newest definition of each name is from below the level.
abbrev pub AllBelow : ℕ → MacroTable → Type 0
AllBelow level [] = Unit
AllBelow level (s ∷ t) = (is_below level s.stack ≡ true) × AllBelow level t

-- What a call at a level can do to the table: definitions of that level or above, undefinitions of such,
-- and calls above it that end.
pub data Changes (level : ℕ) (t : MacroTable) : MacroTable → Type 0 where
  unchanged : Changes level t t
  defined :
      (n : Bytes) (o : Option Bytes) (b : Bytes) (f priv nargs l flags : ℕ) (u : MacroTable)
      → level ≤ l
      → Changes level t u
      → Changes level t (push_macro_any n o b f priv nargs l flags u)
  undefined :
      (n : Bytes) (u : MacroTable)
      → is_scoped level (definitions n u) ≡ true
      → Changes level t u
      → Changes level t (pop_macro n u)
  called :
      (l : ℕ) (u : MacroTable) → level ≤ l → Changes level t u → Changes level t (free_entries l u)

free_stack-pop_scoped :
    (level : ℕ) (stack : List MacroEntry) → free_stack level stack ≡ pop_scoped level stack
unfolding free_stack pop_scoped
free_stack-pop_scoped level [] = refl
free_stack-pop_scoped level (me ∷ stack) = ground arith

free_stack-push :
    (level : ℕ) (me : MacroEntry) (stack : List MacroEntry)
    → level ≤ me.level
    → free_stack level (me ∷ stack) ≡ free_stack level stack
unfolding free_stack
free_stack-push level me stack h = ground (arith, free_stack-pop_scoped level stack)

free_stack-pop :
    (level : ℕ) (stack : List MacroEntry)
    → is_scoped level stack ≡ true
    → free_stack level (pop stack) ≡ free_stack level stack
unfolding pop is_scoped
free_stack-pop level [] h = refl
free_stack-pop level (me ∷ stack) h = sym (free_stack-push level me stack (ground (arith, h)))

pop_scoped-twice :
    (level l : ℕ) (stack : List MacroEntry)
    → level ≤ l
    → pop_scoped level (pop_scoped l stack) ≡ pop_scoped level stack
unfolding pop_scoped
pop_scoped-twice level l [] h = refl
pop_scoped-twice level l (me ∷ stack) h = ground (arith, pop_scoped-twice level l stack h)

free_stack-twice :
    (level l : ℕ) (stack : List MacroEntry)
    → level ≤ l
    → free_stack level (free_stack l stack) ≡ free_stack level stack
free_stack-twice level l stack h =
    free_stack-pop_scoped level (free_stack l stack)
    ∙ (ap (pop_scoped level) (free_stack-pop_scoped l stack)
        ∙ (pop_scoped-twice level l stack h ∙ sym (free_stack-pop_scoped level stack)))

free_stack-below :
    (level : ℕ) (stack : List MacroEntry)
    → is_below level stack ≡ true
    → free_stack level stack ≡ stack
unfolding is_below free_stack
free_stack-below level [] h = refl
free_stack-below level (me ∷ stack) h = ground (arith, h)

below-definitions :
    (level : ℕ) (m : Bytes) (t : MacroTable)
    → AllBelow level t
    → is_below level (definitions m t) ≡ true
unfolding definitions
below-definitions level m [] h = unfold is_below in refl
below-definitions level m (s ∷ t) (h, k) = ground (arith, h, below-definitions level m t k)

-- The part of a table below a level is that of `t`.
abbrev Keeps : ℕ → MacroTable → MacroTable → Type 0
Keeps level t u =
    IsWellFormed u × ((m : Bytes) → free_stack level (definitions m u) ≡ definitions m t)

defined-Keeps :
    (level : ℕ) (t : MacroTable) (n : Bytes) (o : Option Bytes) (b : Bytes)
    (f priv nargs l flags : ℕ) (u : MacroTable)
    → level ≤ l
    → Keeps level t u
    → Keeps level t (push_macro_any n o b f priv nargs l flags u)
unfolding push_macro_any
defined-Keeps level t n o b f priv nargs l flags u h (w, e) =
    let me : MacroEntry = record {
      opts = o;
      body = b;
      func = f;
      priv = priv;
      nargs = nargs;
      flags = unused flags;
      level = l;
    } in
    (
      push_entry-IsWellFormed n me u w,
      λ m.
          ap (free_stack level) (definitions-push_entry m n me u)
          ∙ elim (Bool-cases (same_name m n)) [
            | inl q ↦ rw q (free_stack-push level me (definitions m u) h ∙ e m)
            | inr q ↦ rw q (e m)
          ],
    )

undefined-Keeps :
    (level : ℕ) (t : MacroTable) (n : Bytes) (u : MacroTable)
    → is_scoped level (definitions n u) ≡ true
    → Keeps level t u
    → Keeps level t (pop_macro n u)
undefined-Keeps level t n u h (w, e) = (
  pop_macro-IsWellFormed n u w,
  λ m. ap (free_stack level) (definitions-pop_macro m n u w) ∙ elim (Bool-cases (same_name m n)) [
    | inl q ↦ rw q (free_stack-pop level (definitions m u) (rw (same_name-same m n q) h) ∙ e m)
    | inr q ↦ rw q (e m)
  ],
)

Changes-Keeps :
    (level : ℕ) (t u : MacroTable)
    → IsWellFormed t
    → AllBelow level t
    → Changes level t u
    → Keeps level t u
Changes-Keeps level t _ w b unchanged =
    (w, λ m. free_stack-below level (definitions m t) (below-definitions level m t b))
Changes-Keeps level t _ w b (defined n o s f priv nargs l flags u h c) =
    defined-Keeps level t n o s f priv nargs l flags u h (Changes-Keeps level t u w b c)
Changes-Keeps level t _ w b (undefined n u h c) =
    undefined-Keeps level t n u h (Changes-Keeps level t u w b c)
Changes-Keeps level t _ w b (called l u h c) =
    let (w', e) = Changes-Keeps level t u w b c in
    (
      free_entries-IsWellFormed l u w',
      λ m.
          ap (free_stack level) (definitions-free_entries m l u w')
          ∙ (free_stack-twice level l (definitions m u) h ∙ e m),
    )

-- A call of a parametric macro defines and undefines macros of its own level, and makes calls of its own.
-- When its arguments are freed, every name has the definitions that it had before the call.
pub free_args-restores :
    (level : ℕ) (t u : MacroTable) (m : Bytes)
    → IsWellFormed t
    → AllBelow (suc level) t
    → Changes (suc level) t u
    → ((free_args (record { scope_level = suc level; tab = u })).0.scope_level ≡ level)
      × (definitions m (free_args (record { scope_level = suc level; tab = u })).0.tab
          ≡ definitions m t)
unfolding free_args
free_args-restores level t u m w b c =
    let (w', e) = Changes-Keeps (suc level) t u w b c in
    (omega arith, definitions-free_entries m (suc level) u w' ∙ e m)
