-- ===== src/IndexSet/Sort.antt =====
-- Sorting puts the items in order and keeps each as often as it was there.
use rpm.Base.{
  ℕ, ◌+◌, ◌≡◌, refl, true, false, [], ◌∷◌, if◌then◌else◌, All, arith, Bool-cases, inl, inr,
}
use rpm.IndexSet.{IndexItem, Items, less, same, insert_sorted, sort, sort_many}

-- `a` does not come behind `b`.
abbrev pub NotAfter : IndexItem → IndexItem → Type 0
NotAfter a b = less b a ≡ false

abbrev pub IsSorted : Items → Type 0
IsSorted [] = Unit
IsSorted (x ∷ xs) = All (NotAfter x) xs × IsSorted xs

-- How often an item occurs.
abbrev pub count : IndexItem → Items → ℕ
count z [] = 0
count z (x ∷ xs) = (if same z x then 1 else 0) + count z xs

pub NotAfter-trans : (a b c : IndexItem) → NotAfter a b → NotAfter b c → NotAfter a c
unfolding less
NotAfter-trans a b c h k = ground arith

All-NotAfter :
    (a b : IndexItem) (xs : Items) → NotAfter a b → All (NotAfter b) xs → All (NotAfter a) xs
All-NotAfter a b [] h k = tt
All-NotAfter a b (x ∷ xs) h k = (NotAfter-trans a b x h k.0, All-NotAfter a b xs h k.1)

less-NotAfter : (a b : IndexItem) → less a b ≡ true → NotAfter a b
unfolding less
less-NotAfter a b h = ground arith

insert_sorted-All :
    (z x : IndexItem) (xs : Items)
    → NotAfter z x
    → All (NotAfter z) xs
    → All (NotAfter z) (insert_sorted x xs)
unfolding insert_sorted
insert_sorted-All z x [] h k = (h, tt)
insert_sorted-All z x (y ∷ ys) h k = elim (Bool-cases (less y x)) [
  | inl e ↦ rw e (k.0, insert_sorted-All z x ys h k.1)
  | inr e ↦ rw e (h, k)
]

insert_sorted-IsSorted : (x : IndexItem) (xs : Items) → IsSorted xs → IsSorted (insert_sorted x xs)
unfolding insert_sorted
insert_sorted-IsSorted x [] h = (tt, tt)
insert_sorted-IsSorted x (y ∷ ys) h = elim (Bool-cases (less y x)) [
  | inl e ↦
      rw e (insert_sorted-All y x ys (less-NotAfter y x e) h.0, insert_sorted-IsSorted x ys h.1)
  | inr e ↦ rw e ((e, All-NotAfter x y ys e h.0), h)
]

insert_sorted-count :
    (z x : IndexItem) (xs : Items) → count z (insert_sorted x xs) ≡ count z (x ∷ xs)
unfolding insert_sorted
insert_sorted-count z x [] = refl
insert_sorted-count z x (y ∷ ys) = ground (arith, insert_sorted-count z x ys)

pub sort-IsSorted : (xs : Items) → IsSorted (sort xs)
unfolding sort
sort-IsSorted [] = tt
sort-IsSorted (x ∷ xs) = insert_sorted-IsSorted x (sort xs) (sort-IsSorted xs)

pub sort-count : (z : IndexItem) (xs : Items) → count z (sort xs) ≡ count z xs
unfolding sort
sort-count z [] = refl
sort-count z (x ∷ xs) = ground (arith, insert_sorted-count z x (sort xs), sort-count z xs)

-- A set of at most one item is sorted as it is, so leaving the sort out changes nothing.
pub sort_many-sort : (xs : Items) → sort_many true xs ≡ sort xs
unfolding sort_many
sort_many-sort [] = unfold sort in refl
sort_many-sort (x ∷ []) = unfold sort insert_sorted in refl
sort_many-sort (x ∷ y ∷ xs) = ground arith
