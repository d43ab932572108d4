-- ===== src/Tests/Engine.antt =====
-- A concrete order manager and engine (src/order_manager.cpp, src/matching_engine.cpp), and the
-- theorems at them.
use cmarket.Prelude.{◌≡◌, refl, ◌≢◌, false, none, [], arith, eqb_ℤ_iff, pos}
use cmarket.Execution.{buy, sell, LimitOrder}
use cmarket.OrderBook.Levels.Sorted.{quantity_at}
use cmarket.TradeStore.{empty_store}
use cmarket.OrderManager.Defs.{OrderManager, empty_manager, add_order}
use cmarket.OrderManager.Defs
use cmarket.OrderManager.Lookup.{find_order, best_buy_order, best_sell_order}
use cmarket.OrderManager.Invariant.{
  IsConsistent, IsAllActive, IsActive, Validates, validate_order-Validates,
  empty_manager-IsConsistent,
}
use cmarket.OrderManager.Cancel.Refines.{Cancels, cancel_order-Cancels}
use cmarket.OrderManager.Add.{added, added-IsConsistent, added-IsAllActive}
use cmarket.OrderManager.Add.Refines.{Adds, add_order-Adds}
use cmarket.OrderManager.Best.{IsBestOrder, best-IsBestOrder}
use cmarket.OrderManager.Restore.{Restores, restore-cancel}
use cmarket.MatchingEngine.Defs.{MatchingEngine, make, find_best_match}
use cmarket.MatchingEngine.Invariant.{is_at, share, resting_quantity, IsSynced, IsValid}
use cmarket.MatchingEngine.Priority.{IsBestMatch, find_best_match-IsBestMatch}
use cmarket.MatchingEngine.Matching.{Matching, match_loop, match_fuel}
use cmarket.MatchingEngine.Matching.Ends.{Ends, match_loop-Ends}
use cmarket.MatchingEngine.Place.{place_limit_order}
use cmarket.MatchingEngine.Place.Atomic.{IsAtomic, place_limit_order-IsAtomic}
use cmarket.MatchingEngine.Place.Valid.{
  place_limit_order-IsValid, Reachable, made, placed, reachable-IsValid,
}
use cmarket.LongDouble.{exact}
use cmarket.MatchingEngine.Market.{execute_market_order}
use cmarket.MatchingEngine.Market.Executes.{Executes, execute_market_order-Executes}
use cmarket.MatchingEngine.Cancel.{cancel_order}
use cmarket.MatchingEngine.Cancel.Refines.{CancelsIn, cancel_order-CancelsIn}
use cmarket.Tests.Book.{asks, asks-IsSide}

-- A sell order of 20 at 500, and an engine in which it rests.
abbrev resting : LimitOrder
resting = record {
  order_id = 7;
  side = sell;
  price_ticks = pos 500;
  original_quantity = pos 20;
  remaining_quantity = pos 20;
  sequence_number = 3;
}

abbrev incoming : LimitOrder
incoming = record {
  order_id = 8;
  side = buy;
  price_ticks = pos 505;
  original_quantity = pos 12;
  remaining_quantity = pos 12;
  sequence_number = 4;
}

abbrev one_order : OrderManager
one_order = added empty_manager resting

abbrev pub engine : MatchingEngine
engine = record {
  order_book = record { bids = []; asks = asks };
  order_id_generator = record { next_order_id = 8 };
  next_sequence_number = 4;
  order_manager = one_order;
  trade_store = empty_store;
}

resting_fresh : empty_manager.order_indices 7 ≡ none
unfolding empty_manager
resting_fresh = refl

one_order-IsConsistent : IsConsistent one_order
one_order-IsConsistent =
    added-IsConsistent empty_manager empty_manager-IsConsistent resting resting_fresh

resting-IsActive : IsActive resting
resting-IsActive = record {
  identified = omega arith;
  priced = omega arith;
  open_quantity = omega arith;
  bounded = omega arith;
  sequenced = omega arith;
}

one_order-IsAllActive : IsAllActive one_order
unfolding empty_manager
one_order-IsAllActive =
    added-IsAllActive empty_manager empty_manager-IsConsistent resting resting_fresh
      resting-IsActive λ i o h. cc

engine-IsSynced : IsSynced engine
unfolding quantity_at resting_quantity share is_at empty_manager
engine-IsSynced buy p = refl
engine-IsSynced sell p = ground (arith, (eqb_ℤ_iff (pos 500) p).0)

pub engine-IsValid : IsValid engine
engine-IsValid = record {
  book = record { bids_sorted = tt; asks_sorted = asks-IsSide };
  orders = one_order-IsConsistent;
  active = one_order-IsAllActive;
  synced = λ _. engine-IsSynced;
}

cancel_order-CancelsIn_example : CancelsIn engine 7 (cancel_order 7 engine)
cancel_order-CancelsIn_example = cancel_order-CancelsIn engine 7 engine-IsValid

find_best_match-IsBestMatch_example : IsBestMatch engine incoming (find_best_match incoming engine)
find_best_match-IsBestMatch_example =
    find_best_match-IsBestMatch engine incoming one_order-IsConsistent

cancel_order-Cancels_example : Cancels one_order 7 (Defs.cancel_order 7 one_order)
cancel_order-Cancels_example = cancel_order-Cancels one_order 7 one_order-IsConsistent

add_order-Adds_example : Adds one_order incoming (add_order incoming one_order)
add_order-Adds_example = add_order-Adds one_order incoming one_order-IsConsistent

validate_order-Validates_example : Validates resting (Defs.validate_order resting)
validate_order-Validates_example = validate_order-Validates resting

best-IsBestOrder_example :
    IsBestOrder one_order buy (best_buy_order one_order)
    × IsBestOrder one_order sell (best_sell_order one_order)
best-IsBestOrder_example = best-IsBestOrder one_order one_order-IsConsistent

resting_held : find_order one_order 7 ≢ none
unfolding find_order empty_manager
resting_held = λ h. cc h

restore-cancel_example : Restores one_order 7 (pos 12)
restore-cancel_example = restore-cancel one_order 7 (pos 12) one_order-IsConsistent resting_held

abbrev crossing : Matching
crossing = record { engine = engine; incoming = incoming; mutations = []; incoming_added = false }

match_loop-Ends_example : Ends (match_loop (match_fuel engine) crossing)
match_loop-Ends_example = match_loop-Ends crossing one_order-IsConsistent

place_limit_order-IsAtomic_example :
    IsAtomic engine (place_limit_order buy (pos 505) (pos 12) engine)
place_limit_order-IsAtomic_example =
    place_limit_order-IsAtomic engine buy (pos 505) (pos 12) one_order-IsConsistent
      (record { bids_sorted = tt; asks_sorted = asks-IsSide }) (omega arith)

place_limit_order-IsValid_example : IsValid (place_limit_order buy (pos 505) (pos 12) engine).1
place_limit_order-IsValid_example =
    place_limit_order-IsValid engine buy (pos 505) (pos 12) engine-IsValid (omega arith)

execute_market_order-Executes_example :
    Executes buy (pos 30) engine (execute_market_order exact buy (pos 30) engine)
execute_market_order-Executes_example =
    execute_market_order-Executes exact buy (pos 30) engine engine-IsValid (omega arith)

-- An engine on which an order was placed and matched by another.
abbrev served : MatchingEngine
served =
    (place_limit_order buy (pos 505) (pos 12)
      (place_limit_order sell (pos 500) (pos 20) (make engine.order_book)).1).1

served-Reachable : Reachable exact engine.order_book served
served-Reachable =
    placed (place_limit_order sell (pos 500) (pos 20) (make engine.order_book)).1 buy (pos 505)
      (pos 12) (placed (make engine.order_book) sell (pos 500) (pos 20) made (omega arith))
      (omega arith)

reachable-IsValid_example : IsValid served
reachable-IsValid_example =
    reachable-IsValid exact engine.order_book served engine-IsValid.book served-Reachable
