-- ===== src/Ds.antt =====
-- lib/rpmds.cc: the search and the merging of dependency sets. A set is the list of its entries;
-- the ids of the string pool are resolved, and the index of an entry is its place in the list. The
-- iterator `ds->i` is not modelled; the loops of doFind and rpmdsMerge only use it for the index.
mod Search
pub mod Entries
pub mod Find
pub mod Merge
mod Examples
use rpm.Base.{
  ℕ, zero, suc, ◌+◌, ◌-◌, ◌/◌, ◌%◌, ◌^◌, Bool, true, false, Option, none, some, List, [], ◌∷◌, ◌==◌,
  ltb, compare, Ordering, length, get_elem?, Bytes, strcmp, and_then, if◌then◌else◌,
}

-- What `rpmdsN`, `rpmdsEVR`, `rpmdsFlags` and `rpmdsTi` give of an entry. The trigger index is an int:
-- the number below 2^32 that has its bits, 2^32 - 1 for -1.
pub record Dep : Type 0 where
  pub name : Bytes
  pub evr : Option Bytes
  pub flags : ℕ
  pub ti : ℕ

-- `if (OEVR && EVR) strcmp(OEVR, EVR)`
pub compare_evr : Option Bytes → Option Bytes → Ordering
compare_evr none evr = Ordering.eq
compare_evr (some oevr) none = Ordering.eq
compare_evr (some oevr) (some evr) = strcmp oevr evr

-- The sign of `OFlags - Flags`, an unsigned difference that is stored in an `int`.
pub compare_flags : ℕ → ℕ → Ordering
compare_flags oflags flags =
    let d = (oflags + 2 ^ 32 - flags) % 2 ^ 32 in
    if d == 0 then Ordering.eq else if ltb d (2 ^ 31) then Ordering.gt else Ordering.lt

-- The sign of `Oindex - index`, where the difference of the ints wraps around.
pub compare_ti : ℕ → ℕ → Ordering
compare_ti oindex index =
    let d = (oindex + 2 ^ 32 - index) % 2 ^ 32 in
    if d == 0 then Ordering.eq else if ltb d (2 ^ 31) then Ordering.gt else Ordering.lt

-- The comparison of the entry that is looked for with another.
pub compare_deps : Dep → Dep → Ordering
compare_deps o d = and_then (strcmp o.name d.name) (
    and_then (compare_evr o.evr d.evr)
      (and_then (compare_flags o.flags d.flags) (compare_ti o.ti d.ti)))

-- With the entry at an index; the search never leaves the set.
pub compare_at : Dep → List Dep → ℕ → Ordering
compare_at o ds i = elim (get_elem? ds i) [ none ↦ Ordering.eq | some d ↦ compare_deps o d ]

-- `while (l < u)` on fuel, with what `doFind` returns and leaves in `he`; none is out of fuel.
pub find_loop : (ℕ → Ordering) → ℕ → ℕ → ℕ → Option (Option ℕ × ℕ)
find_loop cmp zero l u = none
find_loop cmp (suc n) l u = elim (ltb l u) [
  | false ↦ some (none, u)
  | true ↦ elim (cmp ((l + u) / 2)) [
    | Ordering.lt ↦ find_loop cmp n l ((l + u) / 2)
    | Ordering.gt ↦ find_loop cmp n ((l + u) / 2 + 1) u
    | Ordering.eq ↦ some (some ((l + u) / 2), u)
  ]
]

-- `doFind`
pub do_find : List Dep → Dep → Option (Option ℕ × ℕ)
do_find ds o = find_loop (compare_at o ds) (suc (length ds)) 0 (length ds)

-- `insert(begin() + u, …)` of the vectors.
pub insert_at : ℕ → Dep → List Dep → List Dep
insert_at zero o ds = o ∷ ds
insert_at (suc u) o [] = o ∷ []
insert_at (suc u) o (d ∷ ds) = d ∷ insert_at u o ds

-- One entry that is merged.
pub insert_found : List Dep → Dep → Option (Option ℕ × ℕ) → Option (List Dep)
unfolding insert_at
insert_found ds o none = none
insert_found ds o (some (some i, u)) = some ds
insert_found ds o (some (none, u)) = some (insert_at u o ds)

-- The loop of `rpmdsMerge`.
pub merge_loop : Option (List Dep) → List Dep → Option (List Dep)
merge_loop none os = none
merge_loop (some ds) [] = some ds
merge_loop (some ds) (o ∷ os) = merge_loop (insert_found ds o (do_find ds o)) os
