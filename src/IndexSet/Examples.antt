-- ===== src/IndexSet/Examples.antt =====
-- Index sets at concrete items.
use rpm.Base.{ℕ, ◌≡◌, refl, true, false, some, [], ◌∷◌}
use rpm.IndexSet.{IndexItem, Items, prune_set, index_set_uniq, append_one}
use rpm.IndexSet.Uniq.{Rising, has_hdr, index_set_uniq-Rising}

abbrev item : ℕ → ℕ → IndexItem
item h t = record { hdr_num = h; tag_num = t }

abbrev left : Items
left = item 7 1 ∷ item 3 0 ∷ item 7 0 ∷ item 3 0 ∷ []

abbrev right : Items
right = item 9 9 ∷ item 3 0 ∷ []

pruned : (prune_set left (some right) false).recs ≡ item 3 0 ∷ item 7 0 ∷ item 7 1 ∷ []
unfolding prune_set
pruned = refl

appended : append_one (some right) 1 2 true ≡ (0, some (item 1 2 ∷ item 3 0 ∷ item 9 9 ∷ []))
unfolding append_one
appended = refl

index_set_uniq-Rising_example :
    Rising (index_set_uniq left false)
    × ((h : ℕ) → has_hdr h (index_set_uniq left false) ≡ has_hdr h left)
index_set_uniq-Rising_example = index_set_uniq-Rising left false (λ e. cc)
