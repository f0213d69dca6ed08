-- ===== src/Order/Queue.antt =====
-- lib/order.cc: `addQ`. The queue is the list of the elements that `tsi_suc` links; an element that
-- is added has no successor yet.
pub mod Ordered
use rpm.Base.{
  ℕ, ◌+◌, ◌≤◌, ◌<◌, ◌≡◌, ◌≢◌, refl, sym, Bool, true, false, not, ◌&&◌, ◌||◌, List, [], ◌∷◌, ◌++◌,
  ◌==◌, leb, All, arith, Bool-cases, inl, inr, if◌then◌else◌,
}
use rpm.Order.{ElementType, added, removed, restored, is_added}

-- What the queue reads of an element.
pub record Queued : Type 0 where
  pub te : ℕ
  pub color : ℕ
  pub tsi_qcnt : ℕ
  pub tsi_reqx : ℕ

-- `tailcond`
pub tail_color : ElementType → ℕ → ℕ → Bool
unfolding is_added
tail_color type prefcolor pcolor =
    not (pcolor == 0) && (if is_added type then not (pcolor == prefcolor) else pcolor == prefcolor)

-- The loop goes on past `q`.
pub goes_on : Bool → Queued → Queued → Bool
goes_on tailcond p q = (tailcond && not (p.color == q.color)) || not (leb q.tsi_qcnt p.tsi_qcnt)

pub insert_queue : Bool → Queued → List Queued → List Queued
unfolding goes_on
insert_queue tailcond p [] = p ∷ []
insert_queue tailcond p (q ∷ qs) =
    let rest = insert_queue tailcond p qs in if goes_on tailcond p q then q ∷ rest else p ∷ q ∷ qs

-- `addQ`; the third argument says whether `*rp` is set.
pub add_queue : ElementType → ℕ → Bool → Queued → List Queued → List Queued
add_queue type prefcolor has_end p qs =
    let marked = record p { tsi_reqx = 1 } in
    if has_end then insert_queue (tail_color type prefcolor p.color) marked qs else marked ∷ []
