-- ===== src/Order.antt =====
-- lib/order.cc: the relations between the elements of a transaction that the ordering works on
-- (`addSingleRelation`), and its queue (`addQ`). An element is a number, and the graph gives the
-- sort information of each.
mod Entries
pub mod Relations
pub mod Front
pub mod Once
pub mod Queue
mod Examples
use Prim.Native.Nat.{bit_and, bit_or}
use rpm.Base.{
  ℕ, ◌+◌, ◌-◌, ◌^◌, Bool, true, false, not, ◌&&◌, ◌||◌, Option, none, some, List, [], ◌∷◌, ◌==◌,
  ltb, leb, if◌then◌else◌,
}

pub data ElementType : Type 0 where
  added removed restored : ElementType

-- The tags of the dependencies that the relations are made of.
pub data DepTag : Type 0 where
  requirename recommendname suggestname supplementname enhancename ordername : DepTag

-- `relation_s`
pub record Relation : Type 0 where
  pub rel_suc : ℕ
  pub rel_flags : ℕ

-- `tsortInfo_s`, as far as the relations go.
pub record SortInfo : Type 0 where
  pub tsi_count : ℕ
  pub tsi_qcnt : ℕ
  pub tsi_relations : List Relation
  pub tsi_forward_relations : List Relation

abbrev pub Graph : Type 0
Graph = ℕ → SortInfo

abbrev sense_prereq : ℕ
sense_prereq = 2 ^ 6

abbrev sense_script_pre : ℕ
sense_script_pre = 2 ^ 9

abbrev sense_script_preun : ℕ
sense_script_preun = 2 ^ 11

abbrev sense_missingok : ℕ
sense_missingok = 2 ^ 19

abbrev all_requires_mask : ℕ
all_requires_mask =
    2 ^ 8
    + 2 ^ 9
    + 2 ^ 10
    + 2 ^ 11
    + 2 ^ 12
    + 2 ^ 13
    + 2 ^ 14
    + 2 ^ 24
    + 2 ^ 26
    + 2 ^ 7
    + 2 ^ 5
    + 2 ^ 20
    + 2 ^ 21
    + 2 ^ 6
    + 2 ^ 29
    + 2 ^ 19

abbrev install_only_mask : ℕ
install_only_mask = 2 ^ 9 + 2 ^ 10 + 2 ^ 24 + 2 ^ 26 + 2 ^ 7 + 2 ^ 5

abbrev erase_only_mask : ℕ
erase_only_mask = 2 ^ 11 + 2 ^ 12 + 2 ^ 20 + 2 ^ 21

-- `rpmdsIsWeak`
pub is_weak : DepTag → ℕ → Bool
is_weak requirename flags = not (bit_and flags sense_missingok == 0)
is_weak recommendname flags = true
is_weak suggestname flags = true
is_weak supplementname flags = true
is_weak enhancename flags = true
is_weak ordername flags = true

-- `rpmdsIsReverse`
pub is_reverse : DepTag → Bool
is_reverse supplementname = true
is_reverse enhancename = true
is_reverse requirename = false
is_reverse recommendname = false
is_reverse suggestname = false
is_reverse ordername = false

is_order : DepTag → Bool
is_order ordername = true
is_order requirename = false
is_order recommendname = false
is_order suggestname = false
is_order supplementname = false
is_order enhancename = false

-- `teType == TR_REMOVED` and `teType == TR_ADDED`
is_removed : ElementType → Bool
is_removed removed = true
is_removed added = false
is_removed restored = false

pub is_added : ElementType → Bool
is_added added = true
is_added removed = false
is_added restored = false

-- The part of a dependency's flags that counts for the order.
pub relation_flags : ElementType → ℕ → ℕ
unfolding is_removed is_added
relation_flags type dsflags =
    let flags = bit_and dsflags (if is_removed type then erase_only_mask else install_only_mask) in
    if bit_and dsflags all_requires_mask == sense_prereq
    then bit_or flags (if is_added type then sense_script_pre else sense_script_preun)
    else flags

-- The flags of the relation; none is for a dependency that is ignored.
pub demoted_flags : DepTag → ℕ → ℕ → Option ℕ
unfolding is_weak is_order
demoted_flags tag dsflags flags =
    if is_weak tag dsflags && not (is_order tag)
    then if not (flags == 0) then some 0 else none
    else some flags

pub update : Graph → ℕ → (SortInfo → SortInfo) → Graph
update g k f i = if i == k then f (g i) else g i

pub is_front : List Relation → ℕ → Bool
is_front [] p = false
is_front (rel ∷ rels) p = rel.rel_suc == p

-- `front().rel_flags |= flags`
pub merge_front : List Relation → ℕ → List Relation
merge_front [] flags = []
merge_front (rel ∷ rels) flags = record rel { rel_flags = bit_or rel.rel_flags flags } ∷ rels

cons_entry : Relation → Option (List Relation) → Option (List Relation)
cons_entry rel none = none
cons_entry rel (some rels) = some (rel ∷ rels)

-- The search for the entry of the other side; none is where it is not found.
pub merge_entry : List Relation → ℕ → ℕ → Option (List Relation)
unfolding cons_entry
merge_entry [] q flags = none
merge_entry (rel ∷ rels) q flags =
    let rest = merge_entry rels q flags in
    if rel.rel_suc == q
    then some (record rel { rel_flags = bit_or rel.rel_flags flags } ∷ rels)
    else cons_entry rel rest

pub set_relations : List Relation → SortInfo → SortInfo
set_relations l tsi = record tsi { tsi_relations = l }

pub set_forward : List Relation → SortInfo → SortInfo
set_forward l tsi = record tsi { tsi_forward_relations = l }

-- The end of the search: the entry is written back.
pub write_forward : Graph → ℕ → Option (List Relation) → Option Graph
write_forward g p none = none
write_forward g p (some l) = some (update g p (set_forward l))

pub write_relations : Graph → ℕ → Option (List Relation) → Option Graph
write_relations g p none = none
write_relations g p (some l) = some (update g p (set_relations l))

-- The relation is there, at the front of `tsi_q->tsi_relations`; none is where the assertion fails.
pub merge_relation : Graph → ℕ → ℕ → ℕ → Option Graph
merge_relation g p q flags =
    let g' = update g q (set_relations (merge_front (g q).tsi_relations flags)) in
    write_forward g' p (merge_entry (g' p).tsi_forward_relations q flags)

-- The same at the front of `tsi_q->tsi_forward_relations`.
pub merge_forward : Graph → ℕ → ℕ → ℕ → Option Graph
merge_forward g p q flags =
    let g' = update g q (set_forward (merge_front (g q).tsi_forward_relations flags)) in
    write_relations g' p (merge_entry (g' p).tsi_relations q flags)

pub push_relation : Relation → SortInfo → SortInfo
push_relation rel tsi = record tsi {
  tsi_qcnt = tsi.tsi_qcnt + 1;
  tsi_relations = rel ∷ tsi.tsi_relations;
}

pub push_forward : Relation → SortInfo → SortInfo
push_forward rel tsi = record tsi {
  tsi_count = tsi.tsi_count + 1;
  tsi_forward_relations = rel ∷ tsi.tsi_forward_relations;
}

-- "Record next "q <- p" relation"
pub new_relation : Graph → ℕ → ℕ → ℕ → Graph
new_relation g p q flags =
    update (update g q (push_relation (record { rel_suc = p; rel_flags = flags }))) p
      (push_forward (record { rel_suc = q; rel_flags = flags }))

-- The end of `addSingleRelation`, with p and q swapped already.
pub add_edge : Graph → Bool → ℕ → ℕ → ℕ → Option Graph
add_edge g reversed p q flags =
    if not reversed && is_front (g q).tsi_relations p
    then merge_relation g p q flags
    else if reversed && is_front (g q).tsi_forward_relations p
    then merge_forward g p q flags
    else some (new_relation g p q flags)

-- One call of `addSingleRelation`.
pub record Request : Type 0 where
  pub p : ℕ
  pub q : Option ℕ
  pub type : ElementType
  pub tag : DepTag
  pub flags : ℕ

pub is_reversed : ElementType → DepTag → Bool
unfolding is_removed is_reverse
is_reversed type tag = if is_removed type then not (is_reverse tag) else is_reverse tag

-- `addSingleRelation`; none is a failing assertion.
pub add_single_relation : Graph → Request → Option Graph
add_single_relation g r = elim r.q [
  | none ↦ some g
  | some q ↦
      if q == r.p
      then some g
      else elim (demoted_flags r.tag r.flags (relation_flags r.type r.flags)) [
        | none ↦ some g
        | some flags ↦
            if is_reversed r.type r.tag
            then add_edge g true q r.p flags
            else add_edge g false r.p q flags
      ]
]

-- The calls of `rpmtsOrder`, one after the other.
pub add_relations : Option Graph → List Request → Option Graph
add_relations none rs = none
add_relations (some g) [] = some g
add_relations (some g) (r ∷ rs) = add_relations (add_single_relation g r) rs

pub no_relations : Graph
no_relations i = record {
  tsi_count = 0;
  tsi_qcnt = 0;
  tsi_relations = [];
  tsi_forward_relations = [];
}
