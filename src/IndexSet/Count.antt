-- ===== src/IndexSet/Count.antt =====
-- Pruning and filtering as multisets: each item occurs as often as the difference and the smaller
-- of the two counts say.
use Prim.Native.Nat.{min}
use rpm.Base.{
  ◌-◌, ◌≡◌, refl, Bool, true, false, not, ◌||◌, Option, none, some, [], ◌∷◌, if◌then◌else◌,
  is_empty, All, arith,
}
use rpm.IndexSet.{
  IndexItem, Items, less, same, sort_many, prune, filter_both, set_difference, set_intersection,
  prune_set, filter_set,
}
use rpm.IndexSet.Sort.{NotAfter, IsSorted, count, sort-IsSorted, sort-count, sort_many-sort}

same-less : (x y z : IndexItem) → less x y ≡ true → same z x ≡ true → same z y ≡ false
unfolding less same
same-less x y z h k = ground arith

same_both : (x y z : IndexItem) → less x y ≡ false → less y x ≡ false → same z x ≡ same z y
unfolding less same
same_both x y z h k = ground arith

less-NotAfter-trans : (x y z : IndexItem) → less x y ≡ true → NotAfter y z → less x z ≡ true
unfolding less
less-NotAfter-trans x y z h k = ground arith

-- An item before all items of a set does not occur in it.
count_before :
    (x z : IndexItem) (ys : Items)
    → All (λ y. less x y ≡ true) ys
    → same z x ≡ true
    → count z ys ≡ 0
count_before x z [] h k = refl
count_before x z (y ∷ ys) h k = ground (arith, same-less x y z h.0 k, count_before x z ys h.1 k)

count_before-All :
    (x y : IndexItem) (ys : Items)
    → less x y ≡ true
    → All (NotAfter y) ys
    → All (λ z. less x z ≡ true) ys
count_before-All x y [] h k = tt
count_before-All x y (z ∷ ys) h k = (less-NotAfter-trans x y z h k.0, count_before-All x y ys h k.1)

-- The first item of a sorted set that stands behind `x` shows that `x` is not in it.
count_head :
    (x y z : IndexItem) (ys : Items)
    → less x y ≡ true
    → IsSorted (y ∷ ys)
    → same z x ≡ true
    → count z (y ∷ ys) ≡ 0
count_head x y z ys h s = count_before x z (y ∷ ys) (h, count_before-All x y ys h s.0)

pub count-set_difference :
    (z : IndexItem) (xs ys : Items)
    → IsSorted xs
    → IsSorted ys
    → count z (set_difference xs ys) ≡ count z xs - count z ys
unfolding set_difference
count-set_difference z [] ys p q = omega arith
count-set_difference z (x ∷ xs) [] p q = omega arith
count-set_difference z (x ∷ xs) (y ∷ ys) p q = ground (
  arith,
  count_head x y z ys,
  count_head y x z xs,
  same_both x y z,
  count-set_difference z xs (y ∷ ys) p.1 q,
  count-set_difference z (x ∷ xs) ys p q.1,
  count-set_difference z xs ys p.1 q.1,
)

pub count-set_intersection :
    (z : IndexItem) (xs ys : Items)
    → IsSorted xs
    → IsSorted ys
    → count z (set_intersection xs ys) ≡ min (count z xs) (count z ys)
unfolding set_intersection
count-set_intersection z [] ys p q = omega arith
count-set_intersection z (x ∷ xs) [] p q = omega arith
count-set_intersection z (x ∷ xs) (y ∷ ys) p q = ground (
  arith,
  count_head x y z ys,
  count_head y x z xs,
  same_both x y z,
  count-set_intersection z xs (y ∷ ys) p.1 q,
  count-set_intersection z (x ∷ xs) ys p q.1,
  count-set_intersection z xs ys p.1 q.1,
)

-- The items of a set that may be NULL.
abbrev pub items : Option Items → Items
items none = []
items (some recs) = recs

-- The caller's word that the sets are sorted.
abbrev pub AsTold : Bool → Items → Items → Type 0
AsTold sorted xs ys = sorted ≡ true → IsSorted xs × IsSorted ys

sort_many-IsSorted :
    (sorted : Bool) (xs : Items)
    → (sorted ≡ true → IsSorted xs)
    → IsSorted (sort_many (not sorted) xs)
sort_many-IsSorted true xs h = unfold sort_many in h refl
sort_many-IsSorted false xs h = rw (sort_many-sort xs) (sort-IsSorted xs)

sort_many-count :
    (z : IndexItem) (sorted : Bool) (xs : Items) → count z (sort_many sorted xs) ≡ count z xs
sort_many-count z false xs = unfold sort_many in refl
sort_many-count z true xs = rw (sort_many-sort xs) (sort-count z xs)

module _ (z : IndexItem) (xs ys : Items) (sorted : Bool) (told : AsTold sorted xs ys) where
  first : IsSorted (sort_many (not sorted) xs)
  first = sort_many-IsSorted sorted xs (λ h. (told h).0)

  second : IsSorted (sort_many (not sorted) ys)
  second = sort_many-IsSorted sorted ys (λ h. (told h).1)

  count-prune : count z (prune xs ys sorted).recs ≡ count z xs - count z ys
  unfolding prune
  count-prune =
      rw (count-set_difference z _ _ first second, sort_many-count z (not sorted) xs)
        (rw (sort_many-count z (not sorted) ys))

  count-filter_both : count z (filter_both xs ys sorted).recs ≡ min (count z xs) (count z ys)
  unfolding filter_both
  count-filter_both =
      rw (count-set_intersection z _ _ first second, sort_many-count z (not sorted) xs)
        (rw (sort_many-count z (not sorted) ys))

-- Pruning leaves every item as often as the difference of its counts in the two sets, stopping at 0,
-- and returns 1 exactly if one of the sets is empty or missing. If the caller says that the sets are
-- sorted, they have to be.
prune_set-count :
    (z : IndexItem) (recs : Items) (oset : Option Items) (sorted : Bool)
    → AsTold sorted recs (items oset)
    → (count z (prune_set recs oset sorted).recs ≡ count z recs - count z (items oset))
      × ((prune_set recs oset sorted).rc
          ≡ (if is_empty recs || is_empty (items oset) then 1 else 0))
unfolding prune_set
prune_set-count z recs none sorted told = (omega arith, ground arith)
prune_set-count z [] (some ys) sorted told = (omega arith, refl)
prune_set-count z (x ∷ xs) (some []) sorted told = (omega arith, refl)
prune_set-count z (x ∷ xs) (some (y ∷ ys)) sorted told =
    (count-prune z (x ∷ xs) (y ∷ ys) sorted told, refl)

-- Filtering leaves every item as often as the smaller of its counts in the two sets, and returns 1
-- exactly if the first set is empty. If the caller says that the sets are sorted, they have to be.
filter_set-count :
    (z : IndexItem) (recs : Items) (oset : Option Items) (sorted : Bool)
    → AsTold sorted recs (items oset)
    → (count z (filter_set recs oset sorted).recs ≡ min (count z recs) (count z (items oset)))
      × ((filter_set recs oset sorted).rc ≡ (if is_empty recs then 1 else 0))
unfolding filter_set
filter_set-count z recs none sorted told = (omega arith, refl)
filter_set-count z [] (some ys) sorted told = (omega arith, refl)
filter_set-count z (x ∷ xs) (some []) sorted told = (omega arith, refl)
filter_set-count z (x ∷ xs) (some (y ∷ ys)) sorted told =
    (count-filter_both z (x ∷ xs) (y ∷ ys) sorted told, refl)
