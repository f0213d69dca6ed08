-- ===== src/Order/Once.antt =====
-- The flags of the relations of one element, recorded in the forward direction.
use Prim.Native.Nat.{bit_or}
use rpm.Base.{
  ℕ, ◌≡◌, refl, sym, ap, ◌∙◌, false, true, none, some, List, [], ◌∷◌, ◌==◌, ==_iff, All, arith,
  Bool-cases, Option-cases, inl, inr, if◌then◌else◌,
}
use rpm.Order.{
  Relation, Graph, Request, is_front, merge_front, merge_entry, update, set_relations,
  merge_relation, new_relation, add_edge, add_single_relation, add_relations, demoted_flags,
  relation_flags, is_reversed,
}
use rpm.Order.Entries.{entries}
use rpm.Order.Front.{
  OnlyFront, OnlyFront-none, AllOnlyFront, write_forward-relations, set_relations-at,
  new_relation-at, IsForward, add_single_relation-OnlyFront,
}

-- The flags of the relations with an element, when another request comes: the first makes a relation, a
-- later one adds its flags.
unfoldable pub joined : List ℕ → ℕ → List ℕ
joined [] flags = flags ∷ []
joined (x ∷ xs) flags = bit_or x flags ∷ xs

-- What a request adds to the relations of its element with `q`.
unfoldable pub requested : ℕ → Request → List ℕ → List ℕ
unfolding joined
requested q r flags = elim r.q [
  | none ↦ flags
  | some k ↦
      if k == r.p
      then flags
      else if q == k
      then elim (demoted_flags r.tag r.flags (relation_flags r.type r.flags)) [
        | none ↦ flags
        | some more ↦ joined flags more
      ]
      else flags
]

unfoldable pub all_requested : ℕ → List Request → List ℕ → List ℕ
unfolding requested
all_requested q [] flags = flags
all_requested q (r ∷ rs) flags = all_requested q rs (requested q r flags)

merge_front-joined :
    (p : ℕ) (rels : List Relation) (flags : ℕ)
    → is_front rels p ≡ true
    → entries p (merge_front rels flags) ≡ joined (entries p rels) flags
unfolding is_front merge_front entries joined
merge_front-joined p [] flags h = absurd (ground arith)
merge_front-joined p (rel ∷ rels) flags h = ground arith

OnlyFront-empty :
    (p : ℕ) (rels : List Relation)
    → OnlyFront p rels
    → is_front rels p ≡ false
    → entries p rels ≡ []
unfolding OnlyFront is_front entries
OnlyFront-empty p [] h f = refl
OnlyFront-empty p (rel ∷ rels) h f = ground arith

cons-joined :
    (p : ℕ) (rels : List Relation) (flags : ℕ)
    → entries p rels ≡ []
    → entries p (record { rel_suc = p; rel_flags = flags } ∷ rels) ≡ joined (entries p rels) flags
unfolding entries joined
cons-joined p rels flags h = rw h (ground (arith, h))

merge_relation-joined :
    (g g' : Graph) (p q flags i : ℕ)
    → is_front (g q).tsi_relations p ≡ true
    → merge_relation g p q flags ≡ some g'
    → entries p (g' i).tsi_relations ≡ (
        if i == q
        then joined (entries p (g i).tsi_relations) flags
        else entries p (g i).tsi_relations)
unfolding merge_relation
merge_relation-joined g g' p q flags i f e =
    let merged = merge_front (g q).tsi_relations flags in
    let g1 = update g q (set_relations merged) in
    let kept =
      write_forward-relations g1 g' p i (merge_entry (g1 p).tsi_forward_relations q flags) e in
    elim (Bool-cases (i == q)) [
      | inl s ↦
          let same : i ≡ q = (==_iff i q).0 s in
          rw (kept, set_relations-at g q i merged, s, same)
            (merge_front-joined p (g q).tsi_relations flags f)
      | inr s ↦ rw (kept, set_relations-at g q i merged, s) refl
    ]

new_relation-joined :
    (g : Graph) (p q flags i : ℕ)
    → AllOnlyFront p g
    → is_front (g q).tsi_relations p ≡ false
    → entries p (new_relation g p q flags i).tsi_relations ≡ (
        if i == q
        then joined (entries p (g i).tsi_relations) flags
        else entries p (g i).tsi_relations)
new_relation-joined g p q flags i h f = elim (Bool-cases (i == q)) [
  | inl s ↦
      let same : i ≡ q = (==_iff i q).0 s in
      rw (new_relation-at g p q flags i, s, same)
        (cons-joined p (g q).tsi_relations flags (OnlyFront-empty p (g q).tsi_relations (h q) f))
  | inr s ↦ rw (new_relation-at g p q flags i, s) refl
]

same_entries :
    (g g' : Graph) (p i : ℕ)
    → some g ≡ some g'
    → entries p (g' i).tsi_relations ≡ entries p (g i).tsi_relations
same_entries g g' p i e =
    let same : g ≡ g' = ground arith in ap (λ x. entries p (x i).tsi_relations) (sym same)

add_edge-joined :
    (g g' : Graph) (p q flags i : ℕ)
    → AllOnlyFront p g
    → add_edge g false p q flags ≡ some g'
    → entries p (g' i).tsi_relations ≡ (
        if i == q
        then joined (entries p (g i).tsi_relations) flags
        else entries p (g i).tsi_relations)
unfolding add_edge
add_edge-joined g g' p q flags i h e = elim (Bool-cases (is_front (g q).tsi_relations p)) [
  | inl f ↦ merge_relation-joined g g' p q flags i f (rw f at e)
  | inr f ↦
      same_entries (new_relation g p q flags) g' p i (rw f at e)
      ∙ new_relation-joined g p q flags i h f
]

add_single_relation-requested :
    (g g' : Graph) (r : Request) (i : ℕ)
    → is_reversed r.type r.tag ≡ false
    → AllOnlyFront r.p g
    → add_single_relation g r ≡ some g'
    → entries r.p (g' i).tsi_relations ≡ requested i r (entries r.p (g i).tsi_relations)
unfolding add_single_relation requested
add_single_relation-requested g g' r i v h e = elim (Option-cases r.q) [
  | inl o ↦ rw o (same_entries g g' r.p i (rw o at e))
  | inr (q, o) ↦ elim (Bool-cases (q == r.p)) [
    | inl s ↦ rw (o, s) (same_entries g g' r.p i (rw (o, s) at e))
    | inr s ↦ elim (Option-cases (demoted_flags r.tag r.flags (relation_flags r.type r.flags))) [
      | inl k ↦ rw (o, s, k) (same_entries g g' r.p i (rw (o, s, k) at e) ∙ ground arith)
      | inr (flags, k) ↦ rw (o, s, k) (add_edge-joined g g' r.p q flags i h (rw (o, s, k, v) at e))
    ]
  ]
]

add_relations-requested :
    (g g' : Graph) (p : ℕ) (requests : List Request) (i : ℕ)
    → All (IsForward p) requests
    → AllOnlyFront p g
    → add_relations (some g) requests ≡ some g'
    → entries p (g' i).tsi_relations ≡ all_requested i requests (entries p (g i).tsi_relations)
unfolding add_relations all_requested
add_relations-requested g g' p [] i a h e = same_entries g g' p i e
add_relations-requested g g' p (r ∷ rs) i a h e = elim (Option-cases (add_single_relation g r)) [
  | inl o ↦ absurd (ground (arith, rw (add_relations, o) at e))
  | inr (g1, o) ↦
      let first : AllOnlyFront p g1 =
        rw (sym a.0.0) (add_single_relation-OnlyFront g g1 r a.0.1 (rw a.0.0 h) o) in
      let one : entries p (g1 i).tsi_relations ≡ requested i r (entries p (g i).tsi_relations) =
        rw (sym a.0.0) (add_single_relation-requested g g1 r i a.0.1 (rw a.0.0 h) o) in
      add_relations-requested g1 g' p rs i a.1 first (rw (add_relations, o) at e)
      ∙ ap (all_requested i rs) one
]

-- Where an element has no relation yet, and requests in the forward direction, all for this element,
-- are recorded one after the other, each other element gets a relation with it by the first request
-- that counts, with its flags, and by each later one no second relation, but its flags in the one
-- that is there.
pub add_relations_once :
    (g g' : Graph) (p : ℕ) (requests : List Request)
    → All (IsForward p) requests
    → ((q : ℕ) → entries p (g q).tsi_relations ≡ [])
    → add_relations (some g) requests ≡ some g'
    → (q : ℕ) → entries p (g' q).tsi_relations ≡ all_requested q requests []
add_relations_once g g' p requests a h e q =
    add_relations-requested g g' p requests q a (λ i. OnlyFront-none p (g i).tsi_relations (h i)) e
    ∙ ap (all_requested q requests) (h q)
