-- ===== src/MatchingEngine/Invariant.antt =====
-- The invariant of the matching engine (src/matching_engine.cpp): the book is well-formed, the
-- order manager consistent, and, while there are active orders, the book holds at each price the
-- sum of what is left of the orders there.
use cmarket.Prelude.{
  ℕ, zero, suc, ◌+◌, ◌-◌, ◌≤◌, ◌≡◌, ◌≢◌, Bool, false, some, List, [], ◌∷◌, arith, if◌then◌else◌,
  length, get_elem?, set, push_back, pop_back, length-set, get_elem?-lt, get_elem?-set, pos_part,
  eqb_ℤ, ℤ, pos,
}
use cmarket.Execution.{OrderSide, buy, sell, LimitOrder}
use cmarket.OrderBook.Levels.{PriceLevel}
use cmarket.OrderBook.Levels.Sorted.{quantity_at}
use cmarket.OrderBook.Book.{OrderBook}
use cmarket.OrderBook.Book.Invariant.{IsBook}
use cmarket.OrderManager.Invariant.{IsConsistent, IsAllActive}
use cmarket.MatchingEngine.Defs.{MatchingEngine}

abbrev pub side_levels : OrderSide → OrderBook → List PriceLevel
side_levels buy b = b.bids
side_levels sell b = b.asks

unfoldable pub is_at : OrderSide → ℤ → LimitOrder → Bool
is_at buy p o = elim o.side [ buy ↦ eqb_ℤ o.price_ticks p | sell ↦ false ]
is_at sell p o = elim o.side [ buy ↦ false | sell ↦ eqb_ℤ o.price_ticks p ]

-- What an order adds to the quantity of a side at a price.
unfoldable pub share : OrderSide → ℤ → LimitOrder → ℕ
share s p o = if is_at s p o then pos_part o.remaining_quantity else 0

unfoldable pub resting_quantity : OrderSide → ℤ → List LimitOrder → ℕ
resting_quantity s p [] = 0
resting_quantity s p (o ∷ os) = share s p o + resting_quantity s p os

abbrev pub IsSynced : MatchingEngine → Type 0
IsSynced e =
    (s : OrderSide) (p : ℤ)
    → quantity_at (side_levels s e.order_book) p ≡ pos (resting_quantity s p e.order_manager.orders)

pub record IsValid (e : MatchingEngine) : Type 0 where
  pub book : IsBook e.order_book
  pub orders : IsConsistent e.order_manager
  pub active : IsAllActive e.order_manager
  pub synced : e.order_manager.orders ≢ [] → IsSynced e

module _ (s : OrderSide) (p : ℤ) where
  pub resting-set :
      (os : List LimitOrder) (i : ℕ) (o v : LimitOrder)
      → get_elem? os i ≡ some o
      → resting_quantity s p (set os i v) + share s p o ≡ resting_quantity s p os + share s p v
  unfolding resting_quantity
  resting-set [] i o v h = cc
  resting-set (x ∷ os) zero o v h = ground (arith, h)
  resting-set (x ∷ os) (suc i) o v h = omega (arith, resting-set os i o v h)

  pub resting-pop_back :
      (os : List LimitOrder) (l : LimitOrder)
      → get_elem? os (length os - 1) ≡ some l
      → resting_quantity s p (pop_back os) + share s p l ≡ resting_quantity s p os
  unfolding resting_quantity
  resting-pop_back [] l h = cc
  resting-pop_back (x ∷ []) l h = ground (arith, h)
  resting-pop_back (x ∷ y ∷ os) l h = omega (arith, resting-pop_back (y ∷ os) l (ground (arith, h)))

  -- Taking an order out of the vector takes its share out of the sum.
  pub resting-removed :
      (os : List LimitOrder) (i : ℕ) (o l : LimitOrder)
      → get_elem? os i ≡ some o
      → get_elem? os (length os - 1) ≡ some l
      → resting_quantity s p (pop_back (set os i l)) + share s p o ≡ resting_quantity s p os
  resting-removed os i o l h last =
      let still : get_elem? (set os i l) (length (set os i l) - 1) ≡ some l = ground (
        arith,
        last,
        length-set os i l,
        get_elem?-set os i (length os - 1) l (get_elem?-lt os i h),
      ) in
      omega (arith, resting-set os i o l h, resting-pop_back (set os i l) l still)

  pub share-le :
      (os : List LimitOrder) (i : ℕ) (o : LimitOrder)
      → get_elem? os i ≡ some o
      → share s p o ≤ resting_quantity s p os
  unfolding resting_quantity
  share-le [] i o h = cc
  share-le (x ∷ os) zero o h = ground (arith, h)
  share-le (x ∷ os) (suc i) o h = omega (arith, share-le os i o h)

-- As long as the book holds just the orders, synced whether there are any or not.
pub record IsLocal (e : MatchingEngine) : Type 0 where
  pub book : IsBook e.order_book
  pub orders : IsConsistent e.order_manager
  pub active : IsAllActive e.order_manager
  pub synced : IsSynced e

pub IsLocal-IsValid : (e : MatchingEngine) → IsLocal e → IsValid e
IsLocal-IsValid e h = record {
  book = h.book;
  orders = h.orders;
  active = h.active;
  synced = λ _. h.synced;
}

pub resting-push_back :
    (s : OrderSide) (p : ℤ) (os : List LimitOrder) (o : LimitOrder)
    → resting_quantity s p (push_back os o) ≡ resting_quantity s p os + share s p o
unfolding resting_quantity
resting-push_back s p [] o = omega arith
resting-push_back s p (x ∷ os) o = omega (arith, resting-push_back s p os o)
