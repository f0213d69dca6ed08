-- ===== src/IndexSet/Uniq.antt =====
-- `dbiIndexSetUniq` keeps one item of each header.
use rpm.Base.{
  ℕ, suc, ◌<◌, ◌≤◌, ◌≡◌, refl, ◌∙◌, Bool, true, false, ◌||◌, [], ◌∷◌, ◌==◌, ltb, length, All, arith,
  Bool-cases, inl, inr,
}
use rpm.IndexSet.{
  IndexItem, Items, less, insert_sorted, sort, hdr_num_cmp, unique_behind, unique, index_set_uniq,
}
use rpm.IndexSet.Sort.{NotAfter, IsSorted, sort-IsSorted}

-- The set has an item of this header.
abbrev pub has_hdr : ℕ → Items → Bool
has_hdr h [] = false
has_hdr h (x ∷ xs) = x.hdr_num == h || has_hdr h xs

-- The header numbers rise strictly.
abbrev pub RisingFrom : IndexItem → Items → Type 0
RisingFrom x [] = Unit
RisingFrom x (y ∷ ys) = (x.hdr_num < y.hdr_num) × RisingFrom y ys

abbrev pub Rising : Items → Type 0
Rising [] = Unit
Rising (x ∷ xs) = RisingFrom x xs

NotAfter-hdr : (x y : IndexItem) → NotAfter x y → x.hdr_num ≤ y.hdr_num
unfolding less
NotAfter-hdr x y h = ground arith

insert_sorted-has_hdr :
    (h : ℕ) (x : IndexItem) (xs : Items) → has_hdr h (insert_sorted x xs) ≡ has_hdr h (x ∷ xs)
unfolding insert_sorted
insert_sorted-has_hdr h x [] = refl
insert_sorted-has_hdr h x (y ∷ ys) = ground (arith, insert_sorted-has_hdr h x ys)

sort-has_hdr : (h : ℕ) (xs : Items) → has_hdr h (sort xs) ≡ has_hdr h xs
unfolding sort
sort-has_hdr h [] = refl
sort-has_hdr h (x ∷ xs) = ground (arith, insert_sorted-has_hdr h x (sort xs), sort-has_hdr h xs)

-- An item is dropped only behind one of the same header.
unique_behind-has_hdr :
    (h : ℕ) (kept : IndexItem) (xs : Items)
    → (kept.hdr_num == h || has_hdr h (unique_behind kept xs)) ≡ (kept.hdr_num == h || has_hdr h xs)
unfolding unique_behind hdr_num_cmp
unique_behind-has_hdr h kept [] = refl
unique_behind-has_hdr h kept (x ∷ xs) =
    ground (arith, unique_behind-has_hdr h kept xs, unique_behind-has_hdr h x xs)

hdr_num_cmp-lt : (x y : IndexItem) → NotAfter x y → hdr_num_cmp x y ≡ false → x.hdr_num < y.hdr_num
unfolding hdr_num_cmp less
hdr_num_cmp-lt x y h e = ground arith

unique_behind-RisingFrom :
    (kept : IndexItem) (xs : Items)
    → All (NotAfter kept) xs
    → IsSorted xs
    → RisingFrom kept (unique_behind kept xs)
unfolding unique_behind
unique_behind-RisingFrom kept [] h s = tt
unique_behind-RisingFrom kept (x ∷ xs) h s = elim (Bool-cases (hdr_num_cmp kept x)) [
  | inl e ↦ rw (e, unique_behind) (unique_behind-RisingFrom kept xs h.1 s.1)
  | inr e ↦
      rw (e, unique_behind) (hdr_num_cmp-lt kept x h.0 e, unique_behind-RisingFrom x xs s.0 s.1)
]

unique-Rising : (xs : Items) → IsSorted xs → Rising (unique xs)
unfolding unique
unique-Rising [] s = tt
unique-Rising (x ∷ xs) s = unique_behind-RisingFrom x xs s.0 s.1

unique-has_hdr : (h : ℕ) (xs : Items) → has_hdr h (unique xs) ≡ has_hdr h xs
unfolding unique
unique-has_hdr h [] = refl
unique-has_hdr h (x ∷ xs) = unique_behind-has_hdr h x xs

two_or_more : (n : ℕ) → ltb (suc (suc n)) 2 ≡ false
two_or_more n = ground arith

-- The result has exactly the headers of the set, in strictly rising order. If the caller says that
-- the set is sorted, it has to be.
pub index_set_uniq-Rising :
    (recs : Items) (sorted : Bool)
    → (sorted ≡ true → IsSorted recs)
    → Rising (index_set_uniq recs sorted)
      × ((h : ℕ) → has_hdr h (index_set_uniq recs sorted) ≡ has_hdr h recs)
unfolding index_set_uniq
index_set_uniq-Rising [] sorted h = (tt, λ n. refl)
index_set_uniq-Rising (x ∷ []) sorted h = (tt, λ n. refl)
index_set_uniq-Rising (x ∷ y ∷ xs) true h =
    let all = x ∷ y ∷ xs in
    rw (two_or_more (length xs)) (unique-Rising all (h refl), λ n. unique-has_hdr n all)
index_set_uniq-Rising (x ∷ y ∷ xs) false h =
    let all = x ∷ y ∷ xs in
    rw (two_or_more (length xs)) (
      unique-Rising (sort all) (sort-IsSorted all),
      λ n. unique-has_hdr n (sort all) ∙ sort-has_hdr n all,
    )
