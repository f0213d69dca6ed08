-- ===== src/IndexSet.antt =====
-- lib/backend/dbiset.cc: sets of database index items. A set that may be NULL is an option. The
-- algorithms of the C++ library that the code calls (`std::sort`, `std::unique`,
-- `std::set_difference`, `std::set_intersection`) are written out as the standard describes them.
-- A function that changes its arguments returns them behind its result.
pub mod Sort
pub mod Count
pub mod Uniq
mod Examples
use rpm.Base.{
  ℕ, Bool, true, false, not, ◌&&◌, ◌||◌, Option, none, some, List, [], ◌∷◌, ◌++◌, ◌==◌, ltb,
  if◌then◌else◌, is_empty, get_elem?, length,
}

-- `struct dbiIndexItem_s`
pub record IndexItem : Type 0 where
  pub hdr_num : ℕ
  pub tag_num : ℕ

abbrev pub Items : Type 0
Items = List IndexItem

-- `operator <`
unfoldable pub less : IndexItem → IndexItem → Bool
less a b = if a.hdr_num == b.hdr_num then ltb a.tag_num b.tag_num else ltb a.hdr_num b.hdr_num

-- `operator ==`
pub same : IndexItem → IndexItem → Bool
same a b = a.hdr_num == b.hdr_num && a.tag_num == b.tag_num

pub insert_sorted : IndexItem → Items → Items
insert_sorted x [] = x ∷ []
insert_sorted x (y ∷ ys) = if less y x then y ∷ insert_sorted x ys else x ∷ y ∷ ys

-- `std::sort` by `operator <`
pub sort : Items → Items
unfolding insert_sorted less
sort [] = []
sort (x ∷ xs) = insert_sorted x (sort xs)

-- `dbiIndexSetSort`
pub index_set_sort : Option Items → Option Items
unfolding sort
index_set_sort none = none
index_set_sort (some recs) = some (sort recs)

-- `hdrNumCmp`
pub hdr_num_cmp : IndexItem → IndexItem → Bool
hdr_num_cmp a b = a.hdr_num == b.hdr_num

-- `std::unique`, behind the item that was kept last.
pub unique_behind : IndexItem → Items → Items
unique_behind kept [] = []
unique_behind kept (x ∷ xs) = elim (hdr_num_cmp kept x) [
  | true ↦ unique_behind kept xs
  | false ↦ x ∷ unique_behind x xs
]

pub unique : Items → Items
unfolding unique_behind hdr_num_cmp
unique [] = []
unique (x ∷ xs) = x ∷ unique_behind x xs

-- `dbiIndexSetUniq`
pub index_set_uniq : Items → Bool → Items
unfolding sort unique
index_set_uniq recs sorted =
    if ltb (length recs) 2 then recs else unique (if sorted then recs else sort recs)

-- `if (sortset && set->recs.size() > 1) dbiIndexSetSort(set);`
pub sort_many : Bool → Items → Items
unfolding sort
sort_many wanted recs = if wanted && ltb 1 (length recs) then sort recs else recs

-- `dbiIndexSetAppendSet`: the result code and the first set.
pub append_set : Option Items → Option Items → Bool → ℕ × Option Items
unfolding sort_many
append_set none oset sortset = (1, none)
append_set (some recs) none sortset = (1, some recs)
append_set (some recs) (some orecs) sortset = (0, some (sort_many sortset (recs ++ orecs)))

-- `dbiIndexSetAppendOne`
pub append_one : Option Items → ℕ → ℕ → Bool → ℕ × Option Items
unfolding sort_many
append_one none hdr_num tag_num sortset = (1, none)
append_one (some recs) hdr_num tag_num sortset =
    (0, some (sort_many sortset (recs ++ record { hdr_num = hdr_num; tag_num = tag_num } ∷ [])))

-- `std::set_difference`
pub set_difference : Items → Items → Items
set_difference [] ys = []
set_difference (x ∷ xs) [] = x ∷ xs
set_difference (x ∷ xs) (y ∷ ys) = elim (less x y) [
  | true ↦ x ∷ set_difference xs (y ∷ ys)
  | false ↦ elim (less y x) [ true ↦ set_difference (x ∷ xs) ys | false ↦ set_difference xs ys ]
]

-- `std::set_intersection`
pub set_intersection : Items → Items → Items
set_intersection [] ys = []
set_intersection (x ∷ xs) [] = []
set_intersection (x ∷ xs) (y ∷ ys) = elim (less x y) [
  | true ↦ set_intersection xs (y ∷ ys)
  | false ↦ elim (less y x) [
    | true ↦ set_intersection (x ∷ xs) ys
    | false ↦ x ∷ set_intersection xs ys
  ]
]

-- What a call on two sets leaves: the result code and both sets, as it may sort them both.
pub record Outcome : Type 0 where
  pub rc : ℕ
  pub recs : Items
  pub orecs : Option Items

-- `dbiIndexSetPruneSet`, for a set that is not empty and another that is neither NULL nor empty.
pub prune : Items → Items → Bool → Outcome
unfolding sort_many set_difference
prune recs orecs sorted =
    let a = sort_many (not sorted) recs in
    let b = sort_many (not sorted) orecs in
    record { rc = 0; recs = set_difference a b; orecs = some b }

pub prune_set : Items → Option Items → Bool → Outcome
unfolding prune
prune_set recs none sorted = record { rc = 1; recs = recs; orecs = none }
prune_set recs (some orecs) sorted =
    if is_empty recs || is_empty orecs
    then record { rc = 1; recs = recs; orecs = some orecs }
    else prune recs orecs sorted

-- `dbiIndexSetFilterSet`: with nothing to filter by the set is emptied.
pub filter_empty : Items → Option Items → Outcome
filter_empty recs oset = record { rc = if is_empty recs then 1 else 0; recs = []; orecs = oset }

pub filter_both : Items → Items → Bool → Outcome
unfolding sort_many set_intersection
filter_both recs orecs sorted =
    let a = sort_many (not sorted) recs in
    let b = sort_many (not sorted) orecs in
    record { rc = 0; recs = set_intersection a b; orecs = some b }

pub filter_set : Items → Option Items → Bool → Outcome
unfolding filter_both filter_empty
filter_set recs none sorted = filter_empty recs none
filter_set recs (some orecs) sorted =
    if is_empty recs || is_empty orecs
    then filter_empty recs (some orecs)
    else filter_both recs orecs sorted

-- `dbiIndexSetCount`
pub index_set_count : Option Items → ℕ
index_set_count none = 0
index_set_count (some recs) = length recs

-- `dbiIndexSetClear`
pub index_set_clear : Option Items → Option Items
index_set_clear none = none
index_set_clear (some recs) = some []

-- `dbiIndexRecordOffset` and `dbiIndexRecordFileNumber`; nothing where the access is out of range.
pub record_offset : Items → ℕ → Option ℕ
record_offset recs recno = elim (get_elem? recs recno) [ none ↦ none | some r ↦ some r.hdr_num ]

pub record_file_number : Items → ℕ → Option ℕ
record_file_number recs recno = elim (get_elem? recs recno) [
  | none ↦ none
  | some r ↦ some r.tag_num
]
