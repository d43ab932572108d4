-- ===== src/OrderBook/Book/Invariant.antt =====
-- The invariant of the class `OrderBook` (src/order_book.cpp): each side is strictly sorted,
-- best price first, and holds positive 64-bit quantities only.
use cmarket.Prelude.{
  ◌≡◌, refl, subst, Bool, List, [], ◌≤ℤ◌, int64_max, int64_min, ℤ, Action, lift, ◌>>=◌, modify,
  Result, ok, err,
}
use cmarket.Prelude.Order.{All, IsStrictOrder}
use cmarket.OrderBook.Levels.{PriceLevel, bid_before, ask_before, update_levels, adjust_levels}
use cmarket.OrderBook.Levels.Sorted.{IsSide, bid_before-IsStrictOrder, ask_before-IsStrictOrder}
use cmarket.OrderBook.Levels.Adjust.{
  Adjusts, Updates, adjust_levels-priced, adjust_levels-Adjusts, update_levels-Updates,
}
use cmarket.OrderBook.Normalize.{normalize}
use cmarket.OrderBook.Normalize.Totals.{IsWord, Aggregates, normalize-Aggregates}
use cmarket.OrderBook.Book.{
  OrderBook, empty_book, set_bids, set_asks, replace_snapshot, replace_normalized_snapshot,
  update_bid, update_ask, adjust_bid, adjust_ask,
}

abbrev pub IsBids : List PriceLevel → Type 0
IsBids = IsSide bid_before bid_before-IsStrictOrder

abbrev pub IsAsks : List PriceLevel → Type 0
IsAsks = IsSide ask_before ask_before-IsStrictOrder

pub record IsBook (b : OrderBook) : Type 0 where
  pub bids_sorted : IsBids b.bids
  pub asks_sorted : IsAsks b.asks

pub empty_book-IsBook : IsBook empty_book
unfolding empty_book
empty_book-IsBook = record { bids_sorted = tt; asks_sorted = tt }

-- The edits of the public interface, with their 64-bit arguments.
pub data Edit : Type 0 where
  replace replace_normalized : List PriceLevel → List PriceLevel → Edit
  set_bid set_ask : ℤ → ℤ → Edit
  add_bid add_ask : ℤ → ℤ → Edit

abbrev IsInt64 : ℤ → Type 0
IsInt64 d = (int64_min ≤ℤ d) × (d ≤ℤ int64_max)

-- `replace_normalized_snapshot` stores what it is given: its caller has to give normalised sides.
abbrev pub IsEdit : Edit → Type 0
IsEdit (replace bids asks) = All IsWord bids × All IsWord asks
IsEdit (replace_normalized bids asks) = IsBids bids × IsAsks asks
IsEdit (set_bid p q) = IsInt64 q
IsEdit (set_ask p q) = IsInt64 q
IsEdit (add_bid p d) = IsInt64 d
IsEdit (add_ask p d) = IsInt64 d

pub edit : Edit → Action OrderBook (Unit {0})
edit (replace bids asks) = replace_snapshot bids asks
edit (replace_normalized bids asks) = modify (replace_normalized_snapshot bids asks)
edit (set_bid p q) = update_bid p q
edit (set_ask p q) = update_ask p q
edit (add_bid p d) = adjust_bid p d
edit (add_ask p d) = adjust_ask p d

-- What an edit that began at `b` may have done: it threw and changed nothing, or the book is
-- well-formed.
abbrev pub Keeps : OrderBook → Result (Unit {0}) × OrderBook → Type 0
Keeps b (ok _, b') = IsBook b'
Keeps b (err e, b') = b' ≡ b

set_bids-Keeps :
    (b : OrderBook) (r : Result (List PriceLevel))
    → IsBook b
    → ((levels : List PriceLevel) → r ≡ ok levels → IsBids levels)
    → Keeps b (set_bids b r)
unfolding set_bids
set_bids-Keeps b (ok levels) h f = record {
  bids_sorted = f levels refl;
  asks_sorted = h.asks_sorted;
}
set_bids-Keeps b (err e) h f = refl

set_asks-Keeps :
    (b : OrderBook) (r : Result (List PriceLevel))
    → IsBook b
    → ((levels : List PriceLevel) → r ≡ ok levels → IsAsks levels)
    → Keeps b (set_asks b r)
unfolding set_asks
set_asks-Keeps b (ok levels) h f = record {
  bids_sorted = h.bids_sorted;
  asks_sorted = f levels refl;
}
set_asks-Keeps b (err e) h f = refl

module _ (before : ℤ → ℤ → Bool) (order : IsStrictOrder before) where
  adjusted-IsSide :
      (xs : List PriceLevel) (p d : ℤ)
      → IsSide before order xs
      → IsInt64 d
      → (levels : List PriceLevel) → adjust_levels before xs p d ≡ ok levels
      → IsSide before order levels
  adjusted-IsSide xs p d h w levels e =
      let priced = adjust_levels-priced before order xs p d e in
      (subst (Adjusts before order xs p d) e
        (adjust_levels-Adjusts before order xs p d h priced w.0 w.1)).0.sorted

  updated-IsSide :
      (xs : List PriceLevel) (p q : ℤ)
      → IsSide before order xs
      → IsInt64 q
      → (levels : List PriceLevel) → update_levels before xs p q ≡ ok levels
      → IsSide before order levels
  updated-IsSide xs p q h w levels e =
      (subst (Updates before order xs p q) e
        (update_levels-Updates before order xs p q h w.1)).0.sorted

  normalized-IsSide :
      (xs levels : List PriceLevel)
      → All IsWord xs
      → normalize before xs ≡ ok levels
      → IsSide before order levels
  normalized-IsSide xs levels w e =
      (subst (Aggregates before order [] xs) e (normalize-Aggregates before order xs w)).1

replace-Keeps :
    (b : OrderBook) (xs ys : List PriceLevel) (r s : Result (List PriceLevel))
    → ((levels : List PriceLevel) → r ≡ ok levels → IsBids levels)
    → ((levels : List PriceLevel) → s ≡ ok levels → IsAsks levels)
    → Keeps b (
        (lift r >>= λ bids. lift s >>= λ asks. modify (λ b. record { bids = bids; asks = asks })) b)
replace-Keeps b xs ys (ok bids) (ok asks) f g = record {
  bids_sorted = f bids refl;
  asks_sorted = g asks refl;
}
replace-Keeps b xs ys (ok bids) (err e) f g = refl
replace-Keeps b xs ys (err e) s f g = refl

-- Every edit of the public interface, with any 64-bit arguments, but `replace_normalized_snapshot`,
-- which tests nothing, only with two sides that are already normalised: on a well-formed book it
-- either throws and leaves the book as it was, or leaves a well-formed book, with both sides
-- strictly sorted, best price first, and positive quantities of at most INT64_MAX.
pub edit-Keeps : (e : Edit) (b : OrderBook) → IsEdit e → IsBook b → Keeps b (edit e b)
unfolding edit update_bid update_ask adjust_bid adjust_ask replace_snapshot
    replace_normalized_snapshot
edit-Keeps (replace bids asks) b w h =
    replace-Keeps b bids asks (normalize bid_before bids) (normalize ask_before asks)
      (λ levels. normalized-IsSide bid_before bid_before-IsStrictOrder bids levels w.0)
      (λ levels. normalized-IsSide ask_before ask_before-IsStrictOrder asks levels w.1)
edit-Keeps (replace_normalized bids asks) b w h = record { bids_sorted = w.0; asks_sorted = w.1 }
edit-Keeps (set_bid p q) b w h =
    set_bids-Keeps b _ h
      (updated-IsSide bid_before bid_before-IsStrictOrder b.bids p q h.bids_sorted w)
edit-Keeps (set_ask p q) b w h =
    set_asks-Keeps b _ h
      (updated-IsSide ask_before ask_before-IsStrictOrder b.asks p q h.asks_sorted w)
edit-Keeps (add_bid p d) b w h =
    set_bids-Keeps b _ h
      (adjusted-IsSide bid_before bid_before-IsStrictOrder b.bids p d h.bids_sorted w)
edit-Keeps (add_ask p d) b w h =
    set_asks-Keeps b _ h
      (adjusted-IsSide ask_before ask_before-IsStrictOrder b.asks p d h.asks_sorted w)
