-- ===== src/Order/Front.antt =====
-- While the relations of one element are recorded in the forward direction, a relation that is
-- there already is found at the front.
use rpm.Base.{
  ℕ, ◌≡◌, refl, sym, ap, false, Option, none, some, List, [], ◌∷◌, ◌==◌, ==_iff, arith, Bool-cases,
  Option-cases, inl, inr, if◌then◌else◌,
}
use rpm.Order.{
  Relation, Graph, Request, is_front, merge_front, merge_entry, update, set_relations, set_forward,
  write_forward, merge_relation, push_relation, push_forward, new_relation, add_edge,
  add_single_relation, demoted_flags, relation_flags, is_reversed,
}
use rpm.Order.Entries.{entries}

-- No entry for the element stands behind the first one.
unfoldable pub OnlyFront : ℕ → List Relation → Type 0
OnlyFront p [] = Unit
OnlyFront p (rel ∷ rels) = entries p rels ≡ []

OnlyFront-merge_front :
    (p : ℕ) (rels : List Relation) (flags : ℕ)
    → OnlyFront p rels
    → OnlyFront p (merge_front rels flags)
unfolding OnlyFront merge_front
OnlyFront-merge_front p [] flags h = tt
OnlyFront-merge_front p (rel ∷ rels) flags h = h

OnlyFront-cons :
    (p : ℕ) (rel : Relation) (rels : List Relation)
    → OnlyFront p rels
    → is_front rels p ≡ false
    → OnlyFront p (rel ∷ rels)
unfolding OnlyFront is_front entries
OnlyFront-cons p rel [] h f = refl
OnlyFront-cons p rel (r ∷ rels) h f = ground arith

pub OnlyFront-none : (p : ℕ) (rels : List Relation) → entries p rels ≡ [] → OnlyFront p rels
unfolding OnlyFront entries
OnlyFront-none p [] h = tt
OnlyFront-none p (rel ∷ rels) h = ground arith

abbrev pub AllOnlyFront : ℕ → Graph → Type 0
AllOnlyFront p g = (q : ℕ) → OnlyFront p (g q).tsi_relations

same-OnlyFront : (g g' : Graph) (p : ℕ) → some g ≡ some g' → AllOnlyFront p g → AllOnlyFront p g'
same-OnlyFront g g' p e h q =
    let same : g ≡ g' = ground arith in rw (sym (ap (λ f. (f q).tsi_relations) same)) (h q)

pub write_forward-relations :
    (g g' : Graph) (k i : ℕ) (o : Option (List Relation))
    → write_forward g k o ≡ some g'
    → (g' i).tsi_relations ≡ (g i).tsi_relations
unfolding write_forward update set_forward
write_forward-relations g g' k i none e = absurd (ground arith)
write_forward-relations g g' k i (some l) e =
    let same : update g k (set_forward l) ≡ g' = ground arith in
    let at : update g k (set_forward l) i ≡ g' i = ap (λ f. f i) same in ground arith

pub set_relations-at :
    (g : Graph) (k i : ℕ) (l : List Relation)
    → (update g k (set_relations l) i).tsi_relations ≡ (if i == k then l else (g i).tsi_relations)
unfolding update set_relations
set_relations-at g k i l = ground arith

pub new_relation-at :
    (g : Graph) (p q flags i : ℕ)
    → (new_relation g p q flags i).tsi_relations ≡ (
        if i == q
        then record { rel_suc = p; rel_flags = flags } ∷ (g i).tsi_relations
        else (g i).tsi_relations)
unfolding new_relation update push_relation push_forward
new_relation-at g p q flags i = ground arith

merge_relation-OnlyFront :
    (g g' : Graph) (p q flags : ℕ)
    → AllOnlyFront p g
    → merge_relation g p q flags ≡ some g'
    → AllOnlyFront p g'
unfolding merge_relation
merge_relation-OnlyFront g g' p q flags h e i =
    let merged = merge_front (g q).tsi_relations flags in
    let g1 = update g q (set_relations merged) in
    let kept =
      write_forward-relations g1 g' p i (merge_entry (g1 p).tsi_forward_relations q flags) e in
    elim (Bool-cases (i == q)) [
      | inl f ↦
          rw (kept, set_relations-at g q i merged, f)
            (OnlyFront-merge_front p (g q).tsi_relations flags (h q))
      | inr f ↦ rw (kept, set_relations-at g q i merged, f) (h i)
    ]

new_relation-OnlyFront :
    (g : Graph) (p q flags : ℕ)
    → AllOnlyFront p g
    → is_front (g q).tsi_relations p ≡ false
    → AllOnlyFront p (new_relation g p q flags)
new_relation-OnlyFront g p q flags h n i = elim (Bool-cases (i == q)) [
  | inl f ↦
      let eq = (==_iff i q).0 f in
      rw (new_relation-at g p q flags i, f, eq)
        (OnlyFront-cons p (record { rel_suc = p; rel_flags = flags }) (g q).tsi_relations (h q) n)
  | inr f ↦ rw (new_relation-at g p q flags i, f) (h i)
]

add_edge-OnlyFront :
    (g g' : Graph) (p q flags : ℕ)
    → AllOnlyFront p g
    → add_edge g false p q flags ≡ some g'
    → AllOnlyFront p g'
unfolding add_edge
add_edge-OnlyFront g g' p q flags h e = elim (Bool-cases (is_front (g q).tsi_relations p)) [
  | inl f ↦ merge_relation-OnlyFront g g' p q flags h (rw f at e)
  | inr f ↦
      same-OnlyFront (new_relation g p q flags) g' p (rw f at e)
        (new_relation-OnlyFront g p q flags h f)
]

-- A request of the element in the forward direction.
abbrev pub IsForward : ℕ → Request → Type 0
IsForward p r = (r.p ≡ p) × (is_reversed r.type r.tag ≡ false)

pub add_single_relation-OnlyFront :
    (g g' : Graph) (r : Request)
    → is_reversed r.type r.tag ≡ false
    → AllOnlyFront r.p g
    → add_single_relation g r ≡ some g'
    → AllOnlyFront r.p g'
unfolding add_single_relation
add_single_relation-OnlyFront g g' r v h e = elim (Option-cases r.q) [
  | inl o ↦ same-OnlyFront g g' r.p (rw o at e) h
  | inr (q, o) ↦ elim (Bool-cases (q == r.p)) [
    | inl s ↦ same-OnlyFront g g' r.p (rw (o, s) at e) h
    | inr s ↦ elim (Option-cases (demoted_flags r.tag r.flags (relation_flags r.type r.flags))) [
      | inl k ↦ same-OnlyFront g g' r.p (rw (o, s, k) at e) h
      | inr (flags, k) ↦ add_edge-OnlyFront g g' r.p q flags h (rw (o, s, k, v) at e)
    ]
  ]
]
