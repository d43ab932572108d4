-- ===== src/MatchingEngine/Matching/Undo.antt =====
-- The loop of the handlers that undoes the trades of a match loop (src/matching_engine.cpp).
use cmarket.Prelude.{
  ℕ, zero, suc, ◌≡◌, refl, sym, ap, subst, ◌∙◌, inl, inr, Option, none, some, List, [], ◌∷◌, arith,
  set, set_self, ok,
}
use cmarket.Execution.{LimitOrder}
use cmarket.OrderManager.Defs.{OrderManager}
use cmarket.OrderManager.Lookup.{find_order, write_order}
use cmarket.OrderManager.Removal.{Removal, cancel_order_into, restore_removal}
use cmarket.OrderManager.Invariant.{IsConsistent}
use cmarket.OrderManager.Fill.{with_remaining, write_order_lem}
use cmarket.OrderManager.Cancel.Sides.{removed}
use cmarket.OrderManager.Cancel.Refines.{last_order}
use cmarket.OrderManager.Restore.{removal, cancel_order_into_lem, restore_removal_lem}
use cmarket.MatchingEngine.Defs.{MatchingEngine}
use cmarket.MatchingEngine.Matching.{
  Matching, OrderMutation, note_mutation, note_removal, undo_mutation, undo_mutations,
}
use cmarket.MatchingEngine.Matching.Trade.{executed, resting_after}
use cmarket.MatchingEngine.Matching.Round.{
  written, Found, Round, Broken, written-IsConsistent, written_at,
}

-- Writing twice to one index.
set-set : {A : Type 0} (xs : List A) (i : ℕ) (v w : A) → set (set xs i v) i w ≡ set xs i w
set-set [] i v w = refl
set-set (x ∷ xs) zero v w = refl
set-set (x ∷ xs) (suc i) v w = ap (λ ys. x ∷ ys) (set-set xs i v w)

-- The mutation that a round notes.
abbrev mutation_of : Matching → LimitOrder → Option Removal → OrderMutation
mutation_of s resting r = record {
  order_id = resting.order_id;
  side = resting.side;
  price_ticks = resting.price_ticks;
  executed_quantity = executed s.incoming resting;
  original_remaining_quantity = resting.remaining_quantity;
  removal = r;
}

module _ (s : Matching) (c : IsConsistent s.engine.order_manager) (f : Found s) where
  orders_restored :
      set (written s f.resting f.index).orders f.index f.resting ≡ s.engine.order_manager.orders
  orders_restored =
      set-set s.engine.order_manager.orders f.index (resting_after s.incoming f.resting) f.resting
      ∙ set_self s.engine.order_manager.orders f.index f.resting f.here

  find_written :
      find_order (written s f.resting f.index) f.resting.order_id
      ≡ some (resting_after s.incoming f.resting)
  unfolding find_order
  find_written = rw (find_order, f.held) (written_at s c f)

  find_here : find_order s.engine.order_manager f.resting.order_id ≡ some f.resting
  unfolding find_order
  find_here = rw (find_order, f.held) f.here

  -- The write of the old quantity to an order that is still there.
  undo_partial :
      (e : MatchingEngine)
      → e.order_manager ≡ written s f.resting f.index
      → undo_mutation (mutation_of s f.resting none) e
        ≡ (ok tt, record e { order_manager = s.engine.order_manager })
  unfolding undo_mutation
  undo_partial e h =
      let (back, _) =
        write_order_lem (written s f.resting f.index) f.resting.order_id f.index
          (resting_after s.incoming f.resting) f.resting f.held (written_at s c f) in
      let seen : find_order e.order_manager f.resting.order_id
          ≡ some (resting_after s.incoming f.resting) =
        ap (λ m. find_order m f.resting.order_id) h ∙ find_written in
      let undone : write_order f.resting.order_id f.resting e.order_manager
          ≡ s.engine.order_manager =
        ap (write_order f.resting.order_id f.resting) h
        ∙ back
        ∙ ap (λ xs. record s.engine.order_manager { orders = xs }) orders_restored in
      ground (arith, seen, undone)

  -- Where the trade had not been made, the order is as it was.
  undo_noted :
      (e : MatchingEngine)
      → e.order_manager ≡ s.engine.order_manager
      → undo_mutation (mutation_of s f.resting none) e
        ≡ (ok tt, record e { order_manager = s.engine.order_manager })
  unfolding undo_mutation
  undo_noted e h =
      let (back, _) =
        write_order_lem s.engine.order_manager f.resting.order_id f.index f.resting f.resting f.held
          f.here in
      let seen : find_order e.order_manager f.resting.order_id ≡ some f.resting =
        ap (λ m. find_order m f.resting.order_id) h ∙ find_here in
      let undone : write_order f.resting.order_id f.resting e.order_manager
          ≡ s.engine.order_manager =
        ap (write_order f.resting.order_id f.resting) h
        ∙ back
        ∙ ap (λ xs. record s.engine.order_manager { orders = xs })
            (set_self s.engine.order_manager.orders f.index f.resting f.here) in
      ground (arith, seen, undone)

  -- The restoration of an order that had been filled.
  undo_removal :
      (e : MatchingEngine) (r : Removal) (m : OrderManager)
      → cancel_order_into f.resting.order_id (written s f.resting f.index) ≡ (ok (some r), m)
      → e.order_manager ≡ m
      → undo_mutation (mutation_of s f.resting (some r)) e
        ≡ (ok tt, record e { order_manager = s.engine.order_manager })
  unfolding undo_mutation
  undo_removal e r m done h =
      let (l, last) =
        last_order (written s f.resting f.index) f.index (resting_after s.incoming f.resting)
          (written_at s c f) in
      let taken =
        cancel_order_into_lem (written s f.resting f.index) (written-IsConsistent s c f)
          f.resting.order_id f.index (resting_after s.incoming f.resting) l f.held
          (written_at s c f) last in
      let back =
        restore_removal_lem (written s f.resting f.index) (written-IsConsistent s c f)
          f.resting.order_id f.index (resting_after s.incoming f.resting) l f.held
          (written_at s c f) last f.resting.remaining_quantity in
      let r_eq : r
          ≡ removal (written s f.resting f.index) (written-IsConsistent s c f) f.resting.order_id
              f.index (resting_after s.incoming f.resting) l f.held (written_at s c f) last =
        cc (done, taken) in
      let m_eq : m
          ≡ removed (written s f.resting f.index) f.resting.order_id f.index
              (resting_after s.incoming f.resting) l =
        cc (done, taken) in
      let restored : restore_removal
            (record r {
              removed_order = with_remaining r.removed_order f.resting.remaining_quantity;
            })
            e.order_manager
          ≡ (ok tt, s.engine.order_manager) =
        ap
          (λ n.
            restore_removal
              (record r {
                removed_order = with_remaining r.removed_order f.resting.remaining_quantity;
              })
              n)
          (h ∙ m_eq)
        ∙ ap
            (λ (q : Removal).
              restore_removal
                (record q {
                  removed_order = with_remaining q.removed_order f.resting.remaining_quantity;
                })
                (removed (written s f.resting f.index) f.resting.order_id f.index
                  (resting_after s.incoming f.resting) l))
            r_eq
        ∙ back
        ∙ ap (λ xs. (ok tt, record s.engine.order_manager { orders = xs })) orders_restored in
      ground (arith, restored)

-- The rollback of what is noted gives the manager `m`, from any engine with these orders.
abbrev pub Undoes : OrderManager → Matching → Type 0
Undoes m s =
    (e : MatchingEngine)
    → e.order_manager ≡ s.engine.order_manager
    → undo_mutations s.mutations e ≡ (ok tt, record e { order_manager = m })

undo_cons :
    (mutation : OrderMutation) (s : Matching) (e : MatchingEngine) (m : OrderManager)
    → undo_mutation mutation e ≡ (ok tt, record e { order_manager = s.engine.order_manager })
    → Undoes m s
    → undo_mutations (mutation ∷ s.mutations) e ≡ (ok tt, record e { order_manager = m })
unfolding undo_mutations
undo_cons mutation s e m h rest =
    let later = rest (record e { order_manager = s.engine.order_manager }) refl in
    ground (arith, h, later)

pub Undoes-Round :
    (m : OrderManager) (s s' : Matching)
    → IsConsistent s.engine.order_manager
    → Undoes m s
    → Round s s'
    → Undoes m s'
unfolding note_mutation note_removal
Undoes-Round m s s' c u d = elim d.outcome [
  | inl (_, eq) ↦
      subst (Undoes m) (sym eq)
        λ e h. undo_cons (mutation_of s d.found.resting none) s e m (undo_partial s c d.found e h) u
  | inr (_, r, n, done, eq) ↦ subst (Undoes m) (sym eq) λ e h.
      undo_cons (mutation_of s d.found.resting (some r)) s e m
        (undo_removal s c d.found e r n done h) u
]

pub Undoes-Broken :
    (m : OrderManager) (s s' : Matching)
    → IsConsistent s.engine.order_manager
    → Undoes m s
    → Broken s s'
    → Undoes m s'
unfolding note_mutation
Undoes-Broken m s s' c u b = elim b [
  | inl eq ↦ subst (Undoes m) (sym eq) u
  | inr (f, t, grown, eq) ↦
      subst (Undoes m) (sym eq)
        λ e h. undo_cons (mutation_of s f.resting none) s e m (undo_noted s c f e h) u
]
