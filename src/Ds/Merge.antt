-- ===== src/Ds/Merge.antt =====
-- A dependency set stays sorted, and merging adds exactly the entries that are not there.
use rpm.Base.{
  ℕ, zero, suc, ◌<◌, ◌≡◌, refl, sym, ap, ◌∙◌, Option, none, some, List, [], ◌∷◌, Ordering, flip,
  length, All, inl, inr, ◌⊎◌, ◌↔◌, arith,
}
use rpm.Ds.{Dep, compare_deps, compare_at, do_find, insert_at, insert_found, merge_loop}
use rpm.Ds.Find.{IsSorted, In, at-In, found-entry, do_find-IsResult}
use rpm.Ds.Search.{IsWithin, IsResult}
use rpm.Ds.Entries.{IsPlain, compare_deps-flip}

-- The place for an entry, by induction on the list.
IsPlace : Dep → ℕ → List Dep → Type 0
IsPlace o zero ds = All (λ d. compare_deps o d ≡ Ordering.lt) ds
IsPlace o (suc u) [] = Unit
IsPlace o (suc u) (d ∷ ds) = (compare_deps o d ≡ Ordering.gt) × IsPlace o u ds

All-greater :
    (o : Dep) (ds : List Dep)
    → ((i : ℕ) → i < length ds → compare_at o ds i ≡ Ordering.lt)
    → All (λ d. compare_deps o d ≡ Ordering.lt) ds
unfolding compare_at
All-greater o [] h = tt
All-greater o (d ∷ ds) h = (h 0 (omega arith), All-greater o ds (λ i b. h (suc i) (omega arith)))

within-IsPlace :
    (o : Dep) (u : ℕ) (ds : List Dep) → IsWithin (compare_at o ds) (length ds) u u → IsPlace o u ds
unfolding IsPlace compare_at
within-IsPlace o zero ds w = All-greater o ds (λ i b. w.greater i (omega arith) b)
within-IsPlace o (suc u) [] w = tt
within-IsPlace o (suc u) (d ∷ ds) w = (
  w.smaller 0 (omega arith),
  within-IsPlace o u ds (record {
    ends = omega (arith, w.ends);
    smaller = λ i b. w.smaller (suc i) (omega arith);
    greater = λ i a b. w.greater (suc i) (omega arith) (omega arith);
  }),
)

insert_at-All :
    (P : Dep → Type 0) (u : ℕ) (o : Dep) (ds : List Dep) → P o → All P ds → All P (insert_at u o ds)
unfolding insert_at
insert_at-All P zero o ds ho h = (ho, h)
insert_at-All P (suc u) o [] ho h = (ho, tt)
insert_at-All P (suc u) o (d ∷ ds) ho h = (h.0, insert_at-All P u o ds ho h.1)

insert_at-IsSorted :
    (u : ℕ) (o : Dep) (ds : List Dep)
    → IsPlain o
    → IsPlace o u ds
    → IsSorted ds
    → IsSorted (insert_at u o ds)
unfolding insert_at IsPlace IsSorted
insert_at-IsSorted zero o ds p h s = (p, h, s)
insert_at-IsSorted (suc u) o [] p h s = (p, tt, tt)
insert_at-IsSorted (suc u) o (d ∷ ds) p h s = (
  s.0,
  insert_at-All (λ e. compare_deps d e ≡ Ordering.lt) u o ds
      (compare_deps-flip o d p s.0 ∙ ap flip h.0) s.1,
  insert_at-IsSorted u o ds p h.1 s.2,
)

-- The entries of the second list are those of the first and one more.
IsAdded : List Dep → Dep → List Dep → Type 0
IsAdded ds o ds' = (e : Dep) → In e ds' ↔ (In e ds ⊎ (o ≡ e))

insert_at-IsAdded : (u : ℕ) (o : Dep) (ds : List Dep) → IsAdded ds o (insert_at u o ds)
unfolding IsAdded In insert_at
insert_at-IsAdded zero o ds e =
    (λ h. elim h [ inl q ↦ inr q | inr n ↦ inl n ], λ h. elim h [ inl n ↦ inr n | inr q ↦ inl q ])
insert_at-IsAdded (suc u) o [] e =
    (λ h. elim h [ inl q ↦ inr q | inr n ↦ inl n ], λ h. elim h [ inl n ↦ inr n | inr q ↦ inl q ])
insert_at-IsAdded (suc u) o (d ∷ ds) e =
    let (from, to) = insert_at-IsAdded u o ds e in
    (
      λ h. elim h [
        | inl q ↦ inl (inl q)
        | inr n ↦ elim (from n) [ inl m ↦ inl (inr m) | inr q ↦ inr q ]
      ],
      λ h. elim h [
        | inl m ↦ elim m [ inl q ↦ inl q | inr n ↦ inr (to (inl n)) ]
        | inr q ↦ inr (to (inr q))
      ],
    )

insert_found-IsSorted :
    (ds : List Dep) (o : Dep) (r : Option ℕ × ℕ)
    → IsSorted ds
    → IsPlain o
    → IsResult (compare_at o ds) (length ds) r
    → (ds' : List Dep) × (insert_found ds o (some r) ≡ some ds') × IsSorted ds' × IsAdded ds o ds'
unfolding insert_found IsResult IsAdded
insert_found-IsSorted ds o (some i, u) h p good =
    let there = at-In o ds i (found-entry ds o i h p good.0 good.1) in
    (ds, refl, h, λ e. (λ n. inl n, λ n. elim n [ inl m ↦ m | inr q ↦ rw (sym q) there ]))
insert_found-IsSorted ds o (none, u) h p good = (
  insert_at u o ds,
  refl,
  insert_at-IsSorted u o ds p (within-IsPlace o u ds good) h,
  insert_at-IsAdded u o ds,
)

merge_one-IsSorted :
    (ds : List Dep) (o : Dep)
    → IsSorted ds
    → IsPlain o
    → (ds' : List Dep) × (insert_found ds o (do_find ds o) ≡ some ds')
      × IsSorted ds'
      × IsAdded ds o ds'
merge_one-IsSorted ds o h p =
    let (r, found, good) = do_find-IsResult ds o h p in
    let (ds', inserted, sorted, more) = insert_found-IsSorted ds o r h p good in
    (ds', ap (insert_found ds o) found ∙ inserted, sorted, more)

-- rpmdsMerge ends, the set stays sorted and without duplicates, and its entries are those that it
-- had and those that are merged, if it was sorted and each entry has an EVR, flags below the sign bit
-- and a trigger index that is -1 or at least 0 and not the greatest int.
pub merge_loop-IsSorted :
    (ds os : List Dep)
    → IsSorted ds
    → All IsPlain os
    → (ds' : List Dep) × (merge_loop (some ds) os ≡ some ds')
      × IsSorted ds'
      × ((e : Dep) → In e ds' ↔ (In e ds ⊎ In e os))
unfolding merge_loop In IsAdded
merge_loop-IsSorted ds [] h p =
    (ds, refl, h, λ e. (λ n. inl n, λ n. elim n [ inl m ↦ m | inr b ↦ absurd b ]))
merge_loop-IsSorted ds (o ∷ os) h p =
    let (ds1, one, h1, more1) = merge_one-IsSorted ds o h p.0 in
    let (ds2, rest, h2, more2) = merge_loop-IsSorted ds1 os h1 p.1 in
    (
      ds2,
      ap (λ x. merge_loop x os) one ∙ rest,
      h2,
      λ e. (
        λ n. elim ((more2 e).0 n) [
          | inl m ↦ elim ((more1 e).0 m) [ inl a ↦ inl a | inr q ↦ inr (inl q) ]
          | inr b ↦ inr (inr b)
        ],
        λ n. elim n [
          | inl a ↦ (more2 e).1 (inl ((more1 e).1 (inl a)))
          | inr b ↦ elim b [
            | inl q ↦ (more2 e).1 (inl ((more1 e).1 (inr q)))
            | inr c ↦ (more2 e).1 (inr c)
          ]
        ],
      ),
    )
