-- ===== src/Macro/Table.antt =====
-- rpmio/macro.cc: the table of macros (`tab`), which has a stack of definitions for each name, and
-- what becomes of it in the calls of parametric macros. The order of the names is not modelled; it
-- shows in the order of warnings only. Levels are counted from the lowest one, RMIL_BUILTIN, on.
pub mod Stacks
pub mod Scopes
pub mod Copies
mod Examples
use rpm.Base.{
  ℕ, zero, suc, ◌+◌, ◌-◌, ◌*◌, ◌/◌, ◌%◌, Bool, true, false, not, ◌&&◌, ◌||◌, Option, none, some,
  List, [], ◌∷◌, ◌==◌, ltb, leb, Bytes, if◌then◌else◌,
}

-- `struct rpmMacroEntry_s`; the name is the key of the table, and `func` and `priv` are pointers.
pub record MacroEntry : Type 0 where
  pub opts : Option Bytes
  pub body : Bytes
  pub func : ℕ
  pub priv : ℕ
  pub nargs : ℕ
  pub flags : ℕ
  pub level : ℕ

-- A name with its definitions, the newest first.
pub record Slot : Type 0 where
  pub name : Bytes
  pub stack : List MacroEntry

abbrev pub MacroTable : Type 0
MacroTable = List Slot

-- `ME_AUTO` and `ME_USED` are the bits 0 and 1 of the flags.
unfoldable pub is_auto : ℕ → Bool
is_auto flags = flags % 2 == 1

unfoldable pub is_used : ℕ → Bool
is_used flags = flags / 2 % 2 == 1

-- `flags & ~ME_USED`
unfoldable pub unused : ℕ → ℕ
unused flags = flags - 2 * (flags / 2 % 2)

unfoldable pub same_name : Bytes → Bytes → Bool
same_name [] [] = true
same_name (a ∷ s) (b ∷ t) = a == b && same_name s t
same_name _ _ = false

-- The definitions of a name.
unfoldable pub definitions : Bytes → MacroTable → List MacroEntry
definitions n [] = []
definitions n (s ∷ t) = if same_name n s.name then s.stack else definitions n t

-- `findEntry`
unfoldable pub find_entry : Bytes → MacroTable → Option MacroEntry
unfolding definitions
find_entry n t = elim (definitions n t) [ [] ↦ none | me ∷ stack ↦ some me ]

unfoldable pub push_entry : Bytes → MacroEntry → MacroTable → MacroTable
push_entry n me [] = record { name = n; stack = me ∷ [] } ∷ []
push_entry n me (s ∷ t) =
    let rest = push_entry n me t in
    if same_name n s.name then record s { stack = me ∷ s.stack } ∷ t else s ∷ rest

-- `pushMacroAny`
unfoldable pub push_macro_any :
    Bytes → Option Bytes → Bytes → ℕ → ℕ → ℕ → ℕ → ℕ → MacroTable → MacroTable
unfolding push_entry unused
push_macro_any n o b f priv nargs level flags t =
    push_entry n
      (record {
        opts = o;
        body = b;
        func = f;
        priv = priv;
        nargs = nargs;
        flags = unused flags;
        level = level;
      })
      t

-- `pushMacro`
unfoldable pub push_macro : Bytes → Option Bytes → Bytes → ℕ → ℕ → MacroTable → MacroTable
push_macro n o b level flags t = push_macro_any n o b 0 0 0 level flags t

-- A name keeps its place while it has a definition.
unfoldable pub with_stack : Slot → List MacroEntry → MacroTable → MacroTable
with_stack s [] t = t
with_stack s (me ∷ stack) t = record s { stack = me ∷ stack } ∷ t

unfoldable pub pop : List MacroEntry → List MacroEntry
pop [] = []
pop (me ∷ stack) = stack

-- `popMacro`
unfoldable pub pop_macro : Bytes → MacroTable → MacroTable
unfolding with_stack pop
pop_macro n [] = []
pop_macro n (s ∷ t) =
    let rest = pop_macro n t in
    if same_name n s.name then with_stack s (pop s.stack) t else s ∷ rest

-- The inner loop of `freeArgs`, behind its first round. No stack is empty in a table that is well formed.
unfoldable pub pop_scoped : ℕ → List MacroEntry → List MacroEntry
pop_scoped level [] = []
pop_scoped level (me ∷ stack) =
    let rest = pop_scoped level stack in if leb level me.level then rest else me ∷ stack

unfoldable pub free_stack : ℕ → List MacroEntry → List MacroEntry
unfolding pop_scoped
free_stack level [] = []
free_stack level (me ∷ stack) = if ltb me.level level then me ∷ stack else pop_scoped level stack

-- The loop of `freeArgs` over the names.
unfoldable pub free_entries : ℕ → MacroTable → MacroTable
unfolding free_stack with_stack
free_entries level [] = []
free_entries level (s ∷ t) = with_stack s (free_stack level s.stack) (free_entries level t)

-- Whether a warning is given of a name.
unfoldable pub is_whined : ℕ → List MacroEntry → Bool
unfolding is_auto is_used
is_whined level [] = false
is_whined level (me ∷ stack) =
    not (ltb me.level level) && not (is_auto me.flags || is_used me.flags)

unfoldable pub warnings : ℕ → MacroTable → List Bytes
unfolding is_whined
warnings level [] = []
warnings level (s ∷ t) =
    let rest = warnings level t in if is_whined level s.stack then s.name ∷ rest else rest

-- The level of the buffer, and the table.
pub record Scope : Type 0 where
  pub scope_level : ℕ
  pub tab : MacroTable

-- `freeArgs`, with the names of its warnings. The call has raised the level before.
unfoldable pub free_args : Scope → Scope × List Bytes
unfolding free_entries warnings
free_args mb = (
  record { scope_level = mb.scope_level - 1; tab = free_entries mb.scope_level mb.tab },
  warnings mb.scope_level mb.tab,
)

-- `copyMacros`, for one name; `RMIL_BUILTIN` is the level 0.
unfoldable pub copy_top : ℕ → Bytes → List MacroEntry → MacroTable → MacroTable
copy_top level n [] dst = dst
copy_top level n (me ∷ stack) dst =
    if me.level == 0 then dst else push_macro n me.opts me.body level me.flags dst

-- `copyMacros`
unfoldable pub copy_macros : MacroTable → MacroTable → ℕ → MacroTable
unfolding copy_top
copy_macros [] dst level = dst
copy_macros (s ∷ src) dst level = copy_macros src (copy_top level s.name s.stack dst) level
