-- ===== src/Order/Entries.antt =====
-- What merging a relation does to a list of relations.
use Prim.Native.Nat.{bit_or}
use rpm.Base.{
  ℕ, ◌≡◌, ◌≢◌, refl, true, false, some, List, [], ◌∷◌, ◌==◌, length, arith, Bool-cases, inl, inr,
  if◌then◌else◌,
}
use rpm.Order.{Relation, is_front, merge_front, cons_entry, merge_entry}

-- The flags of the entries for an element, in their order.
unfoldable pub entries : ℕ → List Relation → List ℕ
entries k [] = []
entries k (rel ∷ rels) = if rel.rel_suc == k then rel.rel_flags ∷ entries k rels else entries k rels

pub or_first : List ℕ → ℕ → List ℕ
or_first [] flags = []
or_first (x ∷ xs) flags = bit_or x flags ∷ xs

-- The first entry for an element got flags, and nothing else changed.
pub record IsMerged (rels : List Relation) (k flags : ℕ) (merged : List Relation) : Type 0 where
  pub same : entries k merged ≡ or_first (entries k rels) flags
  pub others : (i : ℕ) → i ≢ k → entries i merged ≡ entries i rels
  pub length_kept : length merged ≡ length rels

pub merge_front-IsMerged :
    (rels : List Relation) (k flags : ℕ)
    → is_front rels k ≡ true
    → IsMerged rels k flags (merge_front rels flags)
unfolding is_front merge_front entries or_first
merge_front-IsMerged [] k flags h = absurd (ground arith)
merge_front-IsMerged (rel ∷ rels) k flags h = record {
  same = ground arith;
  others = λ i n. ground arith;
  length_kept = refl;
}

pub is_front-entries : (rels : List Relation) (k : ℕ) → is_front rels k ≡ true → entries k rels ≢ []
unfolding is_front entries
is_front-entries [] k h e = ground arith
is_front-entries (rel ∷ rels) k h e = ground arith

IsMerged-cons :
    (rel : Relation) (rels : List Relation) (k flags : ℕ) (merged : List Relation)
    → (rel.rel_suc == k) ≡ false
    → IsMerged rels k flags merged
    → IsMerged (rel ∷ rels) k flags (rel ∷ merged)
unfolding entries
IsMerged-cons rel rels k flags merged n m = record {
  same = ground (arith, m.same);
  others = λ i h. ground (arith, m.others i h);
  length_kept = ground (arith, m.length_kept);
}

IsMerged-here :
    (rel : Relation) (rels : List Relation) (k flags : ℕ)
    → (rel.rel_suc == k) ≡ true
    → IsMerged (rel ∷ rels) k flags (record rel { rel_flags = bit_or rel.rel_flags flags } ∷ rels)
unfolding entries or_first
IsMerged-here rel rels k flags e = record {
  same = ground arith;
  others = λ i n. ground arith;
  length_kept = refl;
}

-- The search finds an entry that is there.
pub merge_entry-IsMerged :
    (rels : List Relation) (k flags : ℕ)
    → entries k rels ≢ []
    → (merged : List Relation) × (merge_entry rels k flags ≡ some merged)
      × IsMerged rels k flags merged
unfolding merge_entry cons_entry entries
merge_entry-IsMerged [] k flags n = absurd (n refl)
merge_entry-IsMerged (rel ∷ rels) k flags n = elim (Bool-cases (rel.rel_suc == k)) [
  | inl e ↦ (
    record rel { rel_flags = bit_or rel.rel_flags flags } ∷ rels,
    ground arith,
    IsMerged-here rel rels k flags e,
  )
  | inr e ↦
      let (merged, found, m) = merge_entry-IsMerged rels k flags (λ h. n (ground arith)) in
      (rel ∷ merged, ground (arith, found), IsMerged-cons rel rels k flags merged e m)
]
