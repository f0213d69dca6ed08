-- ===== src/Macro/Table/Examples.antt =====
-- A call that shadows a macro, and one that leaves a definition behind.
use rpm.Base.{drop, ◌≡◌, refl, none, [], ◌∷◌, Bytes, codes, arith, if◌then◌else◌}
use rpm.Macro.Table.{
  copy_macros, MacroEntry, MacroTable, same_name, definitions, push_macro, push_macro_any, unused,
  pop_macro, free_stack, free_entries, free_args, warnings,
}
use rpm.Macro.Table.Stacks.{IsWellFormed, macro_table-stacks, IsCut}
use rpm.Macro.Table.Copies.{copied, definitions-copy_macros}
use rpm.Macro.Table.Scopes.{unchanged, defined, is_below, free_args-restores}

abbrev foo : Bytes
foo = codes "foo"

-- Of the spec file: level -3, counted from -20.
abbrev old_foo : MacroEntry
old_foo = record {
  opts = none;
  body = codes "1";
  func = 0;
  priv = 0;
  nargs = 0;
  flags = 0;
  level = 17;
}

abbrev before : MacroTable
before = record { name = foo; stack = old_foo ∷ [] } ∷ []

abbrev inside : MacroTable
inside = push_macro_any foo none (codes "2") 0 0 0 21 0 before

before-IsWellFormed : IsWellFormed before
before-IsWellFormed = ((λ e. ground arith), unfold definitions in refl, tt)

free_args-restores_example :
    ((free_args (record { scope_level = 21; tab = inside })).0.scope_level ≡ 20)
    × (definitions foo (free_args (record { scope_level = 21; tab = inside })).0.tab
        ≡ definitions foo before)
free_args-restores_example =
    free_args-restores 20 before inside foo before-IsWellFormed (unfold is_below in refl, tt)
      (defined foo none (codes "2") 0 0 0 21 0 before (omega arith) unchanged)

macro_table-stacks_example :
    (IsWellFormed (push_macro_any foo none (codes "2") 0 0 0 17 0 before)
      × (definitions foo (push_macro_any foo none (codes "2") 0 0 0 17 0 before) ≡ (
          if same_name foo foo
          then record {
            opts = none;
            body = codes "2";
            func = 0;
            priv = 0;
            nargs = 0;
            flags = unused 0;
            level = 17;
          }
            ∷ definitions foo before
          else definitions foo before)))
    × (IsWellFormed (pop_macro foo before)
        × (definitions foo (pop_macro foo before) ≡ (
            if same_name foo foo then drop 1 (definitions foo before) else definitions foo before)))
    × (IsWellFormed (free_entries 17 before)
        × IsCut 17 (definitions foo before) (definitions foo (free_entries 17 before)))
macro_table-stacks_example =
    macro_table-stacks before foo foo none (codes "2") 0 0 0 17 0 before-IsWellFormed

-- The warning of a definition that was not used.
inside-warned : (free_args (record { scope_level = 21; tab = inside })).1 ≡ foo ∷ []
unfolding free_args warnings push_macro_any same_name
inside-warned = refl

-- A global definition (level 0) on top of one of the call keeps that in the table: it comes to light when
-- the global one is undefined.
left_behind :
    definitions foo (pop_macro foo (free_entries 21 (push_macro foo none (codes "3") 20 0 inside)))
    ≡ record { opts = none; body = codes "2"; func = 0; priv = 0; nargs = 0; flags = 0; level = 21 }
      ∷ old_foo
      ∷ []
unfolding push_macro push_macro_any pop_macro free_entries definitions same_name free_stack
left_behind = refl

definitions-copy_macros_example :
    definitions foo (copy_macros before inside 13)
    ≡ copied 13 (definitions foo before) (definitions foo inside)
definitions-copy_macros_example = definitions-copy_macros 13 foo before inside before-IsWellFormed
