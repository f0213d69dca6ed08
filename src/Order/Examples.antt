-- ===== src/Order/Examples.antt =====
-- The relations and the queue on small transactions.
use rpm.Base.{ℕ, ◌≡◌, refl, true, Option, none, some, List, [], ◌∷◌, ◌^◌, All}
use rpm.Order.{
  added, removed, requirename, supplementname, Relation, SortInfo, Graph, Request, ElementType,
  DepTag, add_single_relation, add_relations, no_relations, is_reversed, is_removed, is_reverse,
  demoted_flags, relation_flags, is_weak, is_order, is_added, add_edge, is_front, merge_relation,
  merge_forward, new_relation, merge_front, merge_entry, update, write_forward, write_relations,
  set_forward, set_relations, push_relation, push_forward,
}
use rpm.Order.Entries.{entries}
use rpm.Order.Relations.{IsLinked, no_relations-IsLinked, add_relations-IsLinked}
use rpm.Order.Front.{IsForward}
use rpm.Order.Once.{all_requested, add_relations_once}
use rpm.Order.Queue.{Queued, add_queue}
use rpm.Order.Queue.Ordered.{IsOrdered, add_queue-IsOrdered}

abbrev request : ElementType → DepTag → ℕ → ℕ → Request
request type tag p q = record { p = p; q = some q; type = type; tag = tag; flags = 2 ^ 14 }

-- Two packages that require each other, one of them twice, and a supplement.
abbrev installs : List Request
installs =
    request added requirename 0 1
    ∷ request added requirename 0 1
    ∷ request added requirename 1 0
    ∷ request added supplementname 1 2
    ∷ []

abbrev requires_twice : List Request
requires_twice = request added requirename 0 1 ∷ request added requirename 0 1 ∷ []

abbrev edge : ℕ → Relation
edge p = record { rel_suc = p; rel_flags = 0 }

abbrev graph_at : ℕ → Option Graph → SortInfo
graph_at i none = no_relations i
graph_at i (some g) = g i

-- An element that is required twice by one that is added has one relation.
required_twice : graph_at 1 (add_relations (some no_relations) requires_twice) ≡ record {
  tsi_count = 0;
  tsi_qcnt = 1;
  tsi_relations = edge 0 ∷ [];
  tsi_forward_relations = [];
}
unfolding no_relations add_relations add_single_relation is_reversed is_removed is_reverse
    demoted_flags relation_flags is_weak is_order is_added add_edge is_front merge_relation
    merge_forward new_relation merge_front merge_entry update write_forward write_relations
    set_forward set_relations push_relation push_forward
required_twice = refl

-- Among elements that are removed the second relation is recorded again, as the search looks at the
-- other list.
removed_twice :
    graph_at 0 (
      add_relations
        (some no_relations)
        (request removed requirename 0 1 ∷ request removed requirename 0 1 ∷ []))
    ≡ record {
      tsi_count = 0;
      tsi_qcnt = 2;
      tsi_relations = edge 1 ∷ edge 1 ∷ [];
      tsi_forward_relations = [];
    }
unfolding no_relations add_relations add_single_relation is_reversed is_removed is_reverse
    demoted_flags relation_flags is_weak is_order is_added add_edge is_front merge_relation
    merge_forward new_relation merge_front merge_entry update write_forward write_relations
    set_forward set_relations push_relation push_forward
removed_twice = refl

-- Of two elements that require each other and are removed only one relation is recorded.
removed_cycle :
    graph_at 1 (
      add_relations
        (some no_relations)
        (request removed requirename 0 1 ∷ request removed requirename 1 0 ∷ []))
    ≡ record {
      tsi_count = 1;
      tsi_qcnt = 0;
      tsi_relations = [];
      tsi_forward_relations = edge 0 ∷ [];
    }
unfolding no_relations add_relations add_single_relation is_reversed is_removed is_reverse
    demoted_flags relation_flags is_weak is_order is_added add_edge is_front merge_relation
    merge_forward new_relation merge_front merge_entry update write_forward write_relations
    set_forward set_relations push_relation push_forward
removed_cycle = refl

add_relations-IsLinked_example :
    (g : Graph) × (add_relations (some no_relations) installs ≡ some g) × IsLinked g
add_relations-IsLinked_example = add_relations-IsLinked no_relations installs no_relations-IsLinked

requires_twice-IsForward : All (IsForward 0) requires_twice
unfolding is_reversed is_removed is_reverse
requires_twice-IsForward = ((refl, refl), ((refl, refl), tt))

no_relations-entries : (q : ℕ) → entries 0 (no_relations q).tsi_relations ≡ []
unfolding no_relations entries
no_relations-entries q = refl

abbrev all_added :
    (g : Graph) × (add_relations (some no_relations) requires_twice ≡ some g) × IsLinked g
all_added = add_relations-IsLinked no_relations requires_twice no_relations-IsLinked

add_relations_once_example :
    entries 0 (all_added.0 1).tsi_relations ≡ all_requested 1 requires_twice []
add_relations_once_example =
    add_relations_once no_relations all_added.0 0 requires_twice requires_twice-IsForward
      no_relations-entries all_added.1 1

abbrev item : ℕ → ℕ → ℕ → Queued
item te color qcnt = record { te = te; color = color; tsi_qcnt = qcnt; tsi_reqx = 1 }

abbrev one_item : List Queued
one_item = item 7 1 3 ∷ []

one_item-IsOrdered : IsOrdered added 2 one_item
unfolding IsOrdered
one_item-IsOrdered = (tt, tt)

add_queue-IsOrdered_example : IsOrdered added 2 (add_queue added 2 true (item 8 2 5) one_item)
add_queue-IsOrdered_example =
    add_queue-IsOrdered added 2 (item 8 2 5) true one_item one_item-IsOrdered
