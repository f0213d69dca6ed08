-- ===== src/Order/Queue/Ordered.antt =====
-- The order that `addQ` keeps.
use rpm.Base.{
  ℕ, ◌≤◌, ◌<◌, ◌≡◌, refl, ap, Bool, true, false, List, [], ◌∷◌, ◌++◌, All, arith, Bool-cases, inl,
  inr,
}
use rpm.Order.{ElementType}
use rpm.Order.Queue.{Queued, tail_color, goes_on, insert_queue, add_queue}

module _ (type : ElementType) (prefcolor : ℕ) where
  -- What holds of an element that stands before another one: among those of one colour, and among
  -- those that do not go to the tail, it has at least as many successors, and one that goes to the
  -- tail has more of them than one behind it that does not.
  pub record IsBefore (x y : Queued) : Type 0 where
    pub same_color : x.color ≡ y.color → y.tsi_qcnt ≤ x.tsi_qcnt
    pub no_tails :
        tail_color type prefcolor x.color ≡ false
        → tail_color type prefcolor y.color ≡ false
        → y.tsi_qcnt ≤ x.tsi_qcnt
    pub tail_first :
        tail_color type prefcolor x.color ≡ true
        → tail_color type prefcolor y.color ≡ false
        → y.tsi_qcnt < x.tsi_qcnt

  unfoldable pub IsOrdered : List Queued → Type 0
  IsOrdered [] = Unit
  IsOrdered (q ∷ qs) = All (IsBefore q) qs × IsOrdered qs

  passed-IsBefore :
      (p q : Queued) → goes_on (tail_color type prefcolor p.color) p q ≡ true → IsBefore q p
  unfolding goes_on
  passed-IsBefore p q h = record {
    same_color = λ e. ground (arith, ap (tail_color type prefcolor) e);
    no_tails = λ e f. ground (arith);
    tail_first = λ e f. ground (arith);
  }

  stopped-IsBefore :
      (p q : Queued) → goes_on (tail_color type prefcolor p.color) p q ≡ false → IsBefore p q
  unfolding goes_on
  stopped-IsBefore p q h = record {
    same_color = λ e. ground (arith);
    no_tails = λ e f. ground (arith);
    tail_first = λ e f. ground (arith);
  }

  behind-IsBefore :
      (p q r : Queued)
      → goes_on (tail_color type prefcolor p.color) p q ≡ false
      → IsBefore q r
      → IsBefore p r
  unfolding goes_on
  behind-IsBefore p q r h b = record {
    same_color = λ e. ground (
      arith,
      b.same_color,
      b.no_tails,
      b.tail_first,
      Bool-cases (tail_color type prefcolor q.color),
    );
    no_tails = λ e f. ground (
      arith,
      b.same_color,
      b.no_tails,
      b.tail_first,
      Bool-cases (tail_color type prefcolor q.color),
    );
    tail_first = λ e f. ground (
      arith,
      b.same_color,
      b.no_tails,
      b.tail_first,
      Bool-cases (tail_color type prefcolor q.color),
    );
  }

  insert_queue-All :
      (P : Queued → Type 0) (tailcond : Bool) (p : Queued) (qs : List Queued)
      → P p
      → All P qs
      → All P (insert_queue tailcond p qs)
  unfolding insert_queue
  insert_queue-All P tailcond p [] hp h = (hp, tt)
  insert_queue-All P tailcond p (q ∷ qs) hp h = elim (Bool-cases (goes_on tailcond p q)) [
    | inl e ↦ rw e (h.0, insert_queue-All P tailcond p qs hp h.1)
    | inr e ↦ rw e (hp, h)
  ]

  All-behind :
      (p q : Queued) (rs : List Queued)
      → goes_on (tail_color type prefcolor p.color) p q ≡ false
      → All (IsBefore q) rs
      → All (IsBefore p) rs
  All-behind p q [] h b = tt
  All-behind p q (r ∷ rs) h b = (behind-IsBefore p q r h b.0, All-behind p q rs h b.1)

  insert_queue-IsOrdered :
      (p : Queued) (qs : List Queued)
      → IsOrdered qs
      → IsOrdered (insert_queue (tail_color type prefcolor p.color) p qs)
  unfolding insert_queue IsOrdered
  insert_queue-IsOrdered p [] h = (tt, tt)
  insert_queue-IsOrdered p (q ∷ qs) h =
      elim (Bool-cases (goes_on (tail_color type prefcolor p.color) p q)) [
        | inl e ↦ rw e (
          insert_queue-All (IsBefore q) (tail_color type prefcolor p.color) p qs
              (passed-IsBefore p q e) h.0,
          insert_queue-IsOrdered p qs h.1,
        )
        | inr e ↦ rw e ((stopped-IsBefore p q e, All-behind p q qs e h.0), h)
      ]

  -- addQ keeps the queue in order: of two elements of one colour, and of two that do not go to the
  -- tail, the first has at least as many successors; one that goes to the tail has more than each
  -- behind it that does not.
  pub add_queue-IsOrdered :
      (p : Queued) (has_end : Bool) (qs : List Queued)
      → IsOrdered qs
      → IsOrdered (add_queue type prefcolor has_end p qs)
  unfolding add_queue IsOrdered
  add_queue-IsOrdered p true qs h = insert_queue-IsOrdered (record p { tsi_reqx = 1 }) qs h
  add_queue-IsOrdered p false qs h = (tt, tt)

-- The element that comes next, if there is one, ends the loop.
pub StopsAt : Bool → Queued → List Queued → Type 0
StopsAt tailcond p [] = Unit
StopsAt tailcond p (q ∷ qs) = goes_on tailcond p q ≡ false

insert_queue-split :
    (tailcond : Bool) (p : Queued) (qs : List Queued)
    → (before : List Queued) × (after : List Queued) × (before ++ after ≡ qs)
      × (insert_queue tailcond p qs ≡ before ++ p ∷ after)
      × All (λ q. goes_on tailcond p q ≡ true) before
      × StopsAt tailcond p after
unfolding insert_queue StopsAt
insert_queue-split tailcond p [] = ([], [], refl, refl, tt, tt)
insert_queue-split tailcond p (q ∷ qs) = elim (Bool-cases (goes_on tailcond p q)) [
  | inl e ↦
      let (before, after, parts, inserted, passed, stop) = insert_queue-split tailcond p qs in
      (q ∷ before, after, ap (λ l. q ∷ l) parts, rw (e, inserted), (e, passed), stop)
  | inr e ↦ ([], q ∷ qs, refl, rw e, tt, e)
]

-- Where the queue has an end, addQ puts the marked element between two parts of the queue, which
-- keep their elements and their order; each element of the first part has more successors, or has
-- another colour and the new one goes to the tail, and this is not so of the first element of the
-- second part, if there is one.
add_queue-split :
    (type : ElementType) (prefcolor : ℕ) (p : Queued) (qs : List Queued)
    → (before : List Queued) × (after : List Queued) × (before ++ after ≡ qs)
      × (add_queue type prefcolor true p qs ≡ before ++ record p { tsi_reqx = 1 } ∷ after)
      × All
          (λ q. goes_on (tail_color type prefcolor p.color) (record p { tsi_reqx = 1 }) q ≡ true)
          before
      × StopsAt (tail_color type prefcolor p.color) (record p { tsi_reqx = 1 }) after
unfolding add_queue
add_queue-split type prefcolor p qs =
    insert_queue-split (tail_color type prefcolor p.color) (record p { tsi_reqx = 1 }) qs
