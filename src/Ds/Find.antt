-- ===== src/Ds/Find.antt =====
-- `doFind` finds an entry of a sorted set exactly if it is there.
use rpm.Base.{
  ℕ, zero, suc, ◌≡◌, refl, sym, ap, ◌∙◌, Option, none, some, List, [], ◌∷◌, Ordering, flip, length,
  get_elem?, All, inl, inr, Bool-cases, ltb, ◌<◌, ◌⊎◌, arith,
}
use rpm.Ds.{Dep, compare_deps, compare_at, do_find}
use rpm.Ds.Search.{IsMonotone, IsResult, find_loop-IsResult}
use rpm.Ds.Entries.{IsPlain, compare_deps_trans, compare_deps-flip, eq_of_compare_deps}

-- Each entry is smaller than all behind it, and all are plain.
unfoldable pub IsSorted : List Dep → Type 0
IsSorted [] = Unit
IsSorted (d ∷ ds) = IsPlain d × All (λ e. compare_deps d e ≡ Ordering.lt) ds × IsSorted ds

get_elem?-All :
    (P : Dep → Type 0) (ds : List Dep) (i : ℕ)
    → All P ds
    → i < length ds
    → (d : Dep) × (get_elem? ds i ≡ some d) × P d
get_elem?-All P [] i h k = absurd (omega arith)
get_elem?-All P (d ∷ ds) zero h k = (d, refl, h.0)
get_elem?-All P (d ∷ ds) (suc i) h k = get_elem?-All P ds i h.1 (omega arith)

pub IsPlain-All : (ds : List Dep) → IsSorted ds → All IsPlain ds
unfolding IsSorted
IsPlain-All [] h = tt
IsPlain-All (d ∷ ds) h = (h.0, IsPlain-All ds h.2)

sorted_lt :
    (ds : List Dep) (i j : ℕ)
    → IsSorted ds
    → i < j
    → j < length ds
    → (d : Dep) × (e : Dep) × (get_elem? ds i ≡ some d)
      × (get_elem? ds j ≡ some e)
      × IsPlain d
      × IsPlain e
      × (compare_deps d e ≡ Ordering.lt)
unfolding IsSorted
sorted_lt [] i j h k l = absurd (omega arith)
sorted_lt (d ∷ ds) i zero h k l = absurd (omega arith)
sorted_lt (d ∷ ds) zero (suc j) h k l =
    let (e, at, lt) = get_elem?-All (λ e. compare_deps d e ≡ Ordering.lt) ds j h.1 (omega arith) in
    let (e', at', plain) = get_elem?-All IsPlain ds j (IsPlain-All ds h.2) (omega arith) in
    let same : e' ≡ e = ground arith in (d, e, refl, at, h.0, rw (sym same) plain, lt)
sorted_lt (d ∷ ds) (suc i) (suc j) h k l = sorted_lt ds i j h.2 (omega arith) (omega arith)

compare_at-IsMonotone :
    (ds : List Dep) (o : Dep) → IsSorted ds → IsPlain o → IsMonotone (compare_at o ds) (length ds)
unfolding compare_at
compare_at-IsMonotone ds o h p = record {
  before = λ i j a b c.
      let (d, e, first, second, pd, pe, lt) = sorted_lt ds i j h a b in
      let oe : compare_deps o e ≡ Ordering.gt = rw (compare_at, second) at c in
      let eo : compare_deps e o ≡ Ordering.lt = compare_deps-flip o e p pe ∙ ap flip oe in
      let down : compare_deps d o ≡ Ordering.lt = compare_deps_trans d e o pd pe p lt eo in
      rw (compare_at, first) (compare_deps-flip d o pd p ∙ ap flip down);
  after = λ i j a b c.
      let (d, e, first, second, pd, pe, lt) = sorted_lt ds i j h a b in
      let less : compare_deps o d ≡ Ordering.lt = rw (compare_at, first) at c in
      rw (compare_at, second) (compare_deps_trans o d e p pd pe less lt);
}

-- Where `doFind` looks in a sorted set it ends, with an equal entry or the place for a new one.
pub do_find-IsResult :
    (ds : List Dep) (o : Dep)
    → IsSorted ds
    → IsPlain o
    → (r : Option ℕ × ℕ) × (do_find ds o ≡ some r) × IsResult (compare_at o ds) (length ds) r
unfolding do_find
do_find-IsResult ds o h p =
    find_loop-IsResult (compare_at o ds) (length ds) (suc (length ds)) 0 (length ds)
      (compare_at-IsMonotone ds o h p)
      (record {
        ends = omega arith;
        smaller = λ i b. absurd (omega arith);
        greater = λ i a b. absurd (omega arith);
      })
      (omega arith) (omega arith)

-- An entry of the list.
unfoldable pub In : Dep → List Dep → Type 0
In e [] = ⊥
In e (d ∷ ds) = (d ≡ e) ⊎ In e ds

pub at-In : (e : Dep) (ds : List Dep) (i : ℕ) → get_elem? ds i ≡ some e → In e ds
unfolding In
at-In e [] i h = absurd (ground arith)
at-In e (d ∷ ds) zero h = inl (ground arith)
at-In e (d ∷ ds) (suc i) h = inr (at-In e ds i h)

pub found-entry :
    (ds : List Dep) (o : Dep) (i : ℕ)
    → IsSorted ds
    → IsPlain o
    → i < length ds
    → compare_at o ds i ≡ Ordering.eq
    → get_elem? ds i ≡ some o
unfolding compare_at
found-entry ds o i h p b c =
    let (d, at, plain) = get_elem?-All IsPlain ds i (IsPlain-All ds h) b in
    let equal : compare_deps o d ≡ Ordering.eq = rw (compare_at, at) at c in
    at ∙ ap some (sym (eq_of_compare_deps o d p plain equal))

compare_deps_self : (o : Dep) → IsPlain o → compare_deps o o ≡ Ordering.eq
compare_deps_self o p = ground (arith, compare_deps-flip o o p p)

In-at : (e : Dep) (ds : List Dep) → In e ds → (i : ℕ) × (i < length ds) × (get_elem? ds i ≡ some e)
unfolding In
In-at e [] n = absurd n
In-at e (d ∷ ds) (inl q) = (0, omega arith, ap some q)
In-at e (d ∷ ds) (inr n) = let (i, b, at) = In-at e ds n in (suc i, omega arith, at)

result_lem :
    (ds : List Dep) (o : Dep) (r : Option ℕ × ℕ)
    → IsSorted ds
    → IsPlain o
    → IsResult (compare_at o ds) (length ds) r
    → ((i : ℕ) → r.0 ≡ some i → get_elem? ds i ≡ some o) × (r.0 ≡ none → ¬ In o ds)
unfolding IsResult compare_at
result_lem ds o (some j, u) h p good =
    (λ i e. ground (arith, found-entry ds o j h p good.0 good.1), λ e n. ground arith)
result_lem ds o (none, u) h p good = (
  λ i e. absurd (ground arith),
  λ e n.
      let (i, b, at) = In-at o ds n in
      let self : compare_at o ds i ≡ Ordering.eq = rw (compare_at, at) (compare_deps_self o p) in
      elim (Bool-cases (ltb i u)) [
        | inl k ↦ absurd (ground (arith, self, good.smaller i (ground arith)))
        | inr k ↦ absurd (ground (arith, self, good.greater i (ground arith) b))
      ],
)

-- `rpmdsFind` on a sorted set whose entries, and the one that is looked for, have an EVR, flags below the
-- sign bit and a trigger index that is -1 or at least 0 and not the greatest int, ends and gives an index exactly if the entry is in the set, and then the one where it stands.
pub do_find_lem :
    (ds : List Dep) (o : Dep)
    → IsSorted ds
    → IsPlain o
    → (found : Option ℕ) × (u : ℕ) × (do_find ds o ≡ some (found, u))
      × ((i : ℕ) → found ≡ some i → get_elem? ds i ≡ some o)
      × (found ≡ none → ¬ In o ds)
do_find_lem ds o h p =
    let (r, e, good) = do_find-IsResult ds o h p in
    let (there, nowhere) = result_lem ds o r h p good in (r.0, r.1, e, there, nowhere)
