-- ===== src/Macro/Table/Stacks.antt =====
-- The table of macros of rpmio/macro.cc as a map from names to stacks.
use rpm.Base.{
  ◌≤◌, ◌<◌, ◌++◌, All, ltb, leb, drop, ℕ, ◌≡◌, ◌≢◌, refl, ap, ◌∙◌, true, Option, List, [], ◌∷◌,
  Bytes, arith, if◌then◌else◌, Bool-cases, inl, inr,
}
use rpm.Macro.Table.{
  MacroEntry, Slot, MacroTable, same_name, definitions, push_entry, push_macro_any, unused,
  with_stack, pop, pop_macro, free_stack, free_entries, pop_scoped,
}

pub same_name_refl : (s : Bytes) → same_name s s ≡ true
unfolding same_name
same_name_refl [] = refl
same_name_refl (a ∷ s) = ground (arith, same_name_refl s)

pub same_name-same : (s t : Bytes) → same_name s t ≡ true → s ≡ t
unfolding same_name
same_name-same [] [] h = refl
same_name-same (a ∷ s) (b ∷ t) h = ground (arith, same_name-same s t)
same_name-same [] (b ∷ t) h = ground arith
same_name-same (a ∷ s) [] h = ground arith

-- No name is there twice, and each has a definition.
abbrev pub IsWellFormed : MacroTable → Type 0
IsWellFormed [] = Unit
IsWellFormed (s ∷ t) = (s.stack ≢ []) × (definitions s.name t ≡ []) × IsWellFormed t

pub definitions-push_entry :
    (m n : Bytes) (me : MacroEntry) (t : MacroTable)
    → definitions m (push_entry n me t)
      ≡ (if same_name m n then me ∷ definitions m t else definitions m t)
unfolding definitions push_entry
definitions-push_entry m n me [] = refl
definitions-push_entry m n me (s ∷ t) =
    let rest = definitions-push_entry m n me t in
    elim (Bool-cases (same_name n s.name)) [
      | inl e ↦
          let same : n ≡ s.name = same_name-same n s.name e in
          rw (push_entry, e) (ground (arith, same))
      | inr e ↦ rw (push_entry, e) (ground (arith, rest, same_name-same m n, e))
    ]

definitions-with_stack :
    (m : Bytes) (s : Slot) (stack : List MacroEntry) (t : MacroTable)
    → definitions s.name t ≡ []
    → definitions m (with_stack s stack t) ≡ (if same_name m s.name then stack else definitions m t)
unfolding definitions with_stack
definitions-with_stack m s [] t h = ground (arith, h, same_name-same m s.name)
definitions-with_stack m s (me ∷ stack) t h = refl

pub definitions-pop_macro :
    (m n : Bytes) (t : MacroTable)
    → IsWellFormed t
    → definitions m (pop_macro n t)
      ≡ (if same_name m n then pop (definitions m t) else definitions m t)
unfolding definitions pop_macro pop
definitions-pop_macro m n [] h = ground arith
definitions-pop_macro m n (s ∷ t) (h, k, w) =
    let rest = definitions-pop_macro m n t w in
    elim (Bool-cases (same_name n s.name)) [
      | inl e ↦
          let same : n ≡ s.name = same_name-same n s.name e in
          rw (pop_macro, e) (ground (arith, same, definitions-with_stack m s (pop s.stack) t k))
      | inr e ↦ rw (pop_macro, e) (ground (arith, rest, same_name-same m n, e))
    ]

pub definitions-free_entries :
    (m : Bytes) (level : ℕ) (t : MacroTable)
    → IsWellFormed t
    → definitions m (free_entries level t) ≡ free_stack level (definitions m t)
unfolding definitions free_entries
definitions-free_entries m level [] h = unfold free_stack in refl
definitions-free_entries m level (s ∷ t) (h, k, w) =
    let rest = definitions-free_entries m level t w in
    let own : definitions s.name (free_entries level t) ≡ [] =
      definitions-free_entries s.name level t w
      ∙ (ap (free_stack level) k ∙ unfold free_stack in refl) in
    definitions-with_stack m s (free_stack level s.stack) (free_entries level t) own
    ∙ ground (arith, rest)

-- The three calls keep the table well formed.
pub push_entry-IsWellFormed :
    (n : Bytes) (me : MacroEntry) (t : MacroTable)
    → IsWellFormed t
    → IsWellFormed (push_entry n me t)
unfolding push_entry definitions
push_entry-IsWellFormed n me [] h = (λ e. ground arith, refl, tt)
push_entry-IsWellFormed n me (s ∷ t) (h, k, w) = elim (Bool-cases (same_name n s.name)) [
  | inl e ↦ rw (push_entry, e) ((λ q. ground arith), k, w)
  | inr e ↦
      rw (push_entry, e)
        (
          h,
          ground (
            arith,
            definitions-push_entry s.name n me t,
            same_name-same s.name n,
            same_name_refl s.name,
            e,
            k,
          ),
          push_entry-IsWellFormed n me t w,
        )
]

with_stack-IsWellFormed :
    (s : Slot) (stack : List MacroEntry) (t : MacroTable)
    → definitions s.name t ≡ []
    → IsWellFormed t
    → IsWellFormed (with_stack s stack t)
unfolding with_stack
with_stack-IsWellFormed s [] t k w = w
with_stack-IsWellFormed s (me ∷ stack) t k w = ((λ q. ground arith), k, w)

pub pop_macro-IsWellFormed :
    (n : Bytes) (t : MacroTable) → IsWellFormed t → IsWellFormed (pop_macro n t)
unfolding pop_macro pop
pop_macro-IsWellFormed n [] h = tt
pop_macro-IsWellFormed n (s ∷ t) (h, k, w) = elim (Bool-cases (same_name n s.name)) [
  | inl e ↦ rw (pop_macro, e) (with_stack-IsWellFormed s (pop s.stack) t k w)
  | inr e ↦
      rw (pop_macro, e)
        (h, ground (arith, definitions-pop_macro s.name n t w, k), pop_macro-IsWellFormed n t w)
]

pub free_entries-IsWellFormed :
    (level : ℕ) (t : MacroTable) → IsWellFormed t → IsWellFormed (free_entries level t)
unfolding free_entries
free_entries-IsWellFormed level [] h = tt
free_entries-IsWellFormed level (s ∷ t) (h, k, w) =
    with_stack-IsWellFormed s (free_stack level s.stack) (free_entries level t)
      (definitions-free_entries s.name level t w
        ∙ (ap (free_stack level) k ∙ unfold free_stack in refl))
      (free_entries-IsWellFormed level t w)

pop-drop : (stack : List MacroEntry) → pop stack ≡ drop 1 stack
unfolding pop
pop-drop [] = refl
pop-drop (me ∷ stack) = refl

-- No definition in front is of the level or of one above it.
abbrev pub IsBelow : ℕ → List MacroEntry → Type 0
IsBelow level [] = Unit
IsBelow level (me ∷ stack) = me.level < level

-- `rest` is `stack` without the definitions in front of it that are of the level or of one above it.
abbrev pub IsCut : ℕ → List MacroEntry → List MacroEntry → Type 0
IsCut level stack rest =
    (dropped : List MacroEntry) × (stack ≡ dropped ++ rest)
    × All (λ me. level ≤ me.level) dropped
    × IsBelow level rest

pop_scoped-IsCut :
    (level : ℕ) (stack : List MacroEntry) → IsCut level stack (pop_scoped level stack)
unfolding pop_scoped
pop_scoped-IsCut level [] = ([], refl, tt, tt)
pop_scoped-IsCut level (me ∷ stack) =
    let (dropped, e, a, b) = pop_scoped-IsCut level stack in
    elim (Bool-cases (leb level me.level)) [
      | inl h ↦ rw (pop_scoped, h) (me ∷ dropped, ap (λ s. me ∷ s) e, (ground arith, a), b)
      | inr h ↦ rw (pop_scoped, h) ([], refl, tt, ground arith)
    ]

free_stack-IsCut :
    (level : ℕ) (stack : List MacroEntry) → IsCut level stack (free_stack level stack)
unfolding free_stack
free_stack-IsCut level [] = ([], refl, tt, tt)
free_stack-IsCut level (me ∷ stack) = elim (Bool-cases (ltb me.level level)) [
  | inl h ↦ rw (free_stack, h) ([], refl, tt, ground arith)
  | inr h ↦
      let (dropped, e, a, b) = pop_scoped-IsCut level stack in
      rw (free_stack, h) (me ∷ dropped, ap (λ s. me ∷ s) e, (ground arith, a), b)
]

-- The three calls keep each name with a definition once. They work on the stack of one name each, to
-- put a definition in front or to take the one in front away, or, at the end of a call, take from the
-- front of each stack the definitions of the call's level or of one above it, up to the first other.
pub macro_table-stacks :
    (t : MacroTable) (m n : Bytes) (o : Option Bytes) (b : Bytes) (f priv nargs level flags : ℕ)
    → IsWellFormed t
    → (IsWellFormed (push_macro_any n o b f priv nargs level flags t)
        × (definitions m (push_macro_any n o b f priv nargs level flags t) ≡ (
            if same_name m n
            then record {
              opts = o;
              body = b;
              func = f;
              priv = priv;
              nargs = nargs;
              flags = unused flags;
              level = level;
            }
              ∷ definitions m t
            else definitions m t)))
      × (IsWellFormed (pop_macro n t)
          × (definitions m (pop_macro n t)
              ≡ (if same_name m n then drop 1 (definitions m t) else definitions m t)))
      × (IsWellFormed (free_entries level t)
          × IsCut level (definitions m t) (definitions m (free_entries level t)))
unfolding push_macro_any
macro_table-stacks t m n o b f priv nargs level flags w =
    let me : MacroEntry = record {
      opts = o;
      body = b;
      func = f;
      priv = priv;
      nargs = nargs;
      flags = unused flags;
      level = level;
    } in
    (
      (push_entry-IsWellFormed n me t w, definitions-push_entry m n me t),
      (
        pop_macro-IsWellFormed n t w,
        definitions-pop_macro m n t w
            ∙ ap (λ s. if same_name m n then s else definitions m t) (pop-drop (definitions m t)),
      ),
      (
        free_entries-IsWellFormed level t w,
        rw (definitions-free_entries m level t w) (free_stack-IsCut level (definitions m t)),
      ),
    )
