-- ===== src/Order/Relations.antt =====
-- The two sides of the relations agree, so that no assertion of `addSingleRelation` fails.
use rpm.Base.{
  ℕ, ◌≡◌, ◌≢◌, refl, sym, ◌∙◌, Bool, true, false, some, List, [], ◌∷◌, ◌==◌, ==_iff, length, arith,
  Bool-cases, Option-cases, inl, inr, if◌then◌else◌,
}
use rpm.Order.{
  Relation, Graph, Request, is_front, merge_front, update, set_relations, set_forward,
  write_forward, write_relations, merge_relation, merge_forward, push_relation, push_forward,
  new_relation, add_edge, add_single_relation, add_relations, no_relations, demoted_flags,
  relation_flags, is_reversed,
}
use rpm.Order.Entries.{
  entries, IsMerged, merge_front-IsMerged, is_front-entries, merge_entry-IsMerged,
}

-- The entries of each pair are the same on both sides, both counts are those of the entries, and no
-- element is related to itself.
pub record IsLinked (g : Graph) : Type 0 where
  pub mirrored : (p q : ℕ) → entries q (g p).tsi_forward_relations ≡ entries p (g q).tsi_relations
  pub counted : (p : ℕ) → (g p).tsi_count ≡ length (g p).tsi_forward_relations
  pub qcounted : (q : ℕ) → (g q).tsi_qcnt ≡ length (g q).tsi_relations
  pub irreflexive : (p : ℕ) → entries p (g p).tsi_relations ≡ []

-- The graph with flags merged into a relation from `q` to `p`.
record IsMergedAt (g : Graph) (p q flags : ℕ) (forward relations : List Relation) (g' : Graph)
    : Type 0 where
  forward_at :
      (i : ℕ)
      → (g' i).tsi_forward_relations ≡ (if i == p then forward else (g i).tsi_forward_relations)
  relations_at :
      (i : ℕ) → (g' i).tsi_relations ≡ (if i == q then relations else (g i).tsi_relations)
  count_kept : (i : ℕ) → (g' i).tsi_count ≡ (g i).tsi_count
  qcnt_kept : (i : ℕ) → (g' i).tsi_qcnt ≡ (g i).tsi_qcnt

module _ (g g' : Graph) (p q flags : ℕ) (forward relations : List Relation) (linked : IsLinked g)
    (at : IsMergedAt g p q flags forward relations g')
    (f : IsMerged (g p).tsi_forward_relations q flags forward)
    (r : IsMerged (g q).tsi_relations p flags relations) where
  merged-mirrored :
      (a b : ℕ) → entries b (g' a).tsi_forward_relations ≡ entries a (g' b).tsi_relations
  merged-mirrored a b =
      let m = linked.mirrored a b in
      elim (Bool-cases (a == p)) [
        | inl e ↦ elim (Bool-cases (b == q)) [
          | inl h ↦
              let ea = (==_iff a p).0 e in
              let eb = (==_iff b q).0 h in
              rw (
                at.forward_at a,
                at.relations_at b,
                e,
                h,
                ea,
                eb,
                f.same,
                r.same,
                linked.mirrored p q,
              )
          | inr h ↦
              let ea = (==_iff a p).0 e in
              let others = f.others b (λ k. ground arith) in
              rw (at.forward_at a, at.relations_at b, e, h, others, ea, linked.mirrored p b)
        ]
        | inr e ↦ elim (Bool-cases (b == q)) [
          | inl h ↦
              let eb = (==_iff b q).0 h in
              let others = r.others a (λ k. ground arith) in
              rw (at.forward_at a, at.relations_at b, e, h, others, eb, linked.mirrored a q)
          | inr h ↦ rw (at.forward_at a, at.relations_at b, e, h, m)
        ]
      ]

  merged-IsLinked : p ≢ q → IsLinked g'
  merged-IsLinked n = record {
    mirrored = merged-mirrored;
    counted =
        λ i. ground (arith, at.forward_at i, at.count_kept i, f.length_kept, linked.counted i);
    qcounted =
        λ i. ground (arith, at.relations_at i, at.qcnt_kept i, r.length_kept, linked.qcounted i);
    irreflexive = λ i. elim (Bool-cases (i == q)) [
      | inl e ↦
          let ei = (==_iff i q).0 e in
          let others = r.others i (λ k. ground arith) in
          rw (at.relations_at i, e, others, ei, linked.irreflexive q)
      | inr e ↦ rw (at.relations_at i, e, linked.irreflexive i)
    ];
  }

merge_relation-IsLinked :
    (g : Graph) (p q flags : ℕ)
    → IsLinked g
    → p ≢ q
    → is_front (g q).tsi_relations p ≡ true
    → (g' : Graph) × (merge_relation g p q flags ≡ some g') × IsLinked g'
unfolding merge_relation update set_relations set_forward write_forward
merge_relation-IsLinked g p q flags linked n h =
    let there : entries q (g p).tsi_forward_relations ≢ [] =
      λ e. is_front-entries (g q).tsi_relations p h (sym (linked.mirrored p q) ∙ e) in
    let (forward, found, f) = merge_entry-IsMerged (g p).tsi_forward_relations q flags there in
    let relations = merge_front (g q).tsi_relations flags in
    let g' = update (update g q (set_relations relations)) p (set_forward forward) in
    let at : IsMergedAt g p q flags forward relations g' = record {
      forward_at = λ i. ground arith;
      relations_at = λ i. ground arith;
      count_kept = λ i. ground arith;
      qcnt_kept = λ i. ground arith;
    } in
    let differs : (p == q) ≡ false = ground arith in
    (
      g',
      rw (differs, found),
      merged-IsLinked g g' p q flags forward relations linked at f
          (merge_front-IsMerged (g q).tsi_relations p flags h) n,
    )

merge_forward-IsLinked :
    (g : Graph) (p q flags : ℕ)
    → IsLinked g
    → p ≢ q
    → is_front (g q).tsi_forward_relations p ≡ true
    → (g' : Graph) × (merge_forward g p q flags ≡ some g') × IsLinked g'
unfolding merge_forward update set_relations set_forward write_relations
merge_forward-IsLinked g p q flags linked n h =
    let there : entries q (g p).tsi_relations ≢ [] =
      λ e. is_front-entries (g q).tsi_forward_relations p h (linked.mirrored q p ∙ e) in
    let (relations, found, r) = merge_entry-IsMerged (g p).tsi_relations q flags there in
    let forward = merge_front (g q).tsi_forward_relations flags in
    let g' = update (update g q (set_forward forward)) p (set_relations relations) in
    let at : IsMergedAt g q p flags forward relations g' = record {
      forward_at = λ i. ground arith;
      relations_at = λ i. ground arith;
      count_kept = λ i. ground arith;
      qcnt_kept = λ i. ground arith;
    } in
    let differs : (p == q) ≡ false = ground arith in
    (
      g',
      rw (differs, found),
      merged-IsLinked g g' q p flags forward relations linked at
          (merge_front-IsMerged (g q).tsi_forward_relations p flags h) r (λ e. n (sym e)),
    )

new_relation-IsLinked :
    (g : Graph) (p q flags : ℕ) → IsLinked g → p ≢ q → IsLinked (new_relation g p q flags)
unfolding new_relation update push_relation push_forward entries
new_relation-IsLinked g p q flags linked n = record {
  mirrored = λ a b. ground (arith, linked.mirrored a b);
  counted = λ i. ground (arith, linked.counted i);
  qcounted = λ i. ground (arith, linked.qcounted i);
  irreflexive = λ i. ground (arith, linked.irreflexive i);
}

add_edge-IsLinked :
    (g : Graph) (reversed : Bool) (p q flags : ℕ)
    → IsLinked g
    → p ≢ q
    → (g' : Graph) × (add_edge g reversed p q flags ≡ some g') × IsLinked g'
unfolding add_edge
add_edge-IsLinked g true p q flags linked n =
    elim (Bool-cases (is_front (g q).tsi_forward_relations p)) [
      | inl e ↦
          let (g', found, l) = merge_forward-IsLinked g p q flags linked n e in
          (g', rw (e, found), l)
      | inr e ↦ (new_relation g p q flags, rw e, new_relation-IsLinked g p q flags linked n)
    ]
add_edge-IsLinked g false p q flags linked n = elim (Bool-cases (is_front (g q).tsi_relations p)) [
  | inl e ↦
      let (g', found, l) = merge_relation-IsLinked g p q flags linked n e in (g', rw (e, found), l)
  | inr e ↦ (new_relation g p q flags, rw e, new_relation-IsLinked g p q flags linked n)
]

-- On a graph whose sides agree no assertion of `addSingleRelation` fails, whatever the request is,
-- and the sides of the graph it gives agree again.
pub add_single_relation-IsLinked :
    (g : Graph) (r : Request)
    → IsLinked g
    → (g' : Graph) × (add_single_relation g r ≡ some g') × IsLinked g'
unfolding add_single_relation
add_single_relation-IsLinked g r linked = elim (Option-cases r.q) [
  | inl e ↦ (g, rw e, linked)
  | inr (q, e) ↦ elim (Bool-cases (q == r.p)) [
    | inl h ↦ (g, rw (e, h), linked)
    | inr h ↦ elim (Option-cases (demoted_flags r.tag r.flags (relation_flags r.type r.flags))) [
      | inl k ↦ (g, rw (e, h, k), linked)
      | inr (flags, k) ↦ elim (Bool-cases (is_reversed r.type r.tag)) [
        | inl v ↦
            let (g', found, l) = add_edge-IsLinked g true q r.p flags linked (λ s. ground arith) in
            (g', rw (e, h, k, v, found), l)
        | inr v ↦
            let (g', found, l) = add_edge-IsLinked g false r.p q flags linked (λ s. ground arith) in
            (g', rw (e, h, k, v, found), l)
      ]
    ]
  ]
]

pub no_relations-IsLinked : IsLinked no_relations
unfolding no_relations entries
no_relations-IsLinked = record {
  mirrored = λ p q. refl;
  counted = λ p. refl;
  qcounted = λ q. refl;
  irreflexive = λ p. refl;
}

-- From a graph whose sides agree any sequence of calls of `addSingleRelation` runs without a
-- failing assertion, and in the graph it gives the entries of each pair of elements agree on both
-- sides, both counts are right, and no element is related to itself.
pub add_relations-IsLinked :
    (g : Graph) (requests : List Request)
    → IsLinked g
    → (g' : Graph) × (add_relations (some g) requests ≡ some g') × IsLinked g'
unfolding add_relations
add_relations-IsLinked g [] linked = (g, refl, linked)
add_relations-IsLinked g (r ∷ rs) linked =
    let (g', found, l) = add_single_relation-IsLinked g r linked in
    let (g'', rest, l') = add_relations-IsLinked g' rs l in
    (g'', rw (add_relations, found, rest), l')
