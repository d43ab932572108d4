-- ===== src/OrderBook/Averages.antt =====
-- The queries of src/order_book.cpp that compute with `long double`.
use cmarket.Prelude.{Option, none, some, List, [], ◌∷◌, if◌then◌else◌, int64_max, ℤ, pos}
use cmarket.LongDouble.{LongDouble}
use cmarket.OrderBook.Levels.{PriceLevel}
use cmarket.OrderBook.Book.{OrderBook}

module _ (F : LongDouble) where
  abbrev zero_total : F.Carrier
  zero_total = F.of_int64 (pos 0)

  -- The loops that add up quantities, from a total.
  unfoldable pub add_quantities : F.Carrier → List PriceLevel → F.Carrier
  add_quantities total [] = total
  add_quantities total (level ∷ levels) =
      add_quantities (F.plus total (F.of_int64 level.quantity)) levels

  unfoldable pub add_weighted_prices : F.Carrier → List PriceLevel → F.Carrier
  add_weighted_prices total [] = total
  add_weighted_prices total (level ∷ levels) =
      add_weighted_prices
        (F.plus total (F.times (F.of_int64 level.price_ticks) (F.of_int64 level.quantity))) levels

  unfoldable pub calculate_imbalance : List PriceLevel → List PriceLevel → Option F.Double
  calculate_imbalance bids asks =
      let bid_depth = add_quantities zero_total bids in
      let ask_depth = add_quantities zero_total asks in
      let total_depth = F.plus bid_depth ask_depth in
      if F.equal total_depth zero_total
      then none
      else some (F.to_double (F.divided_by (F.minus bid_depth ask_depth) total_depth))

  unfoldable pub calculate_vwap_ticks : List PriceLevel → Option ℤ
  calculate_vwap_ticks [] = none
  calculate_vwap_ticks (level ∷ levels) =
      let weighted_price_total = add_weighted_prices zero_total (level ∷ levels) in
      let quantity_total = add_quantities zero_total (level ∷ levels) in
      let vwap = F.divided_by weighted_price_total quantity_total in
      if F.equal quantity_total zero_total
      then none
      else if F.less (F.of_int64 int64_max) vwap
      then none
      else some (F.truncate vwap)

  unfoldable pub order_book_imbalance : OrderBook → Option F.Double
  order_book_imbalance b = calculate_imbalance b.bids b.asks

  unfoldable pub bid_vwap_ticks : OrderBook → Option ℤ
  bid_vwap_ticks b = calculate_vwap_ticks b.bids

  unfoldable pub ask_vwap_ticks : OrderBook → Option ℤ
  ask_vwap_ticks b = calculate_vwap_ticks b.asks

  -- Each price is weighted by the quantity of the other side.
  unfoldable pub microprice_of : PriceLevel → PriceLevel → Option ℤ
  microprice_of bid ask =
      let bid_quantity = F.of_int64 bid.quantity in
      let ask_quantity = F.of_int64 ask.quantity in
      let total_quantity = F.plus bid_quantity ask_quantity in
      let weighted_price =
        F.plus (F.times (F.of_int64 bid.price_ticks) ask_quantity)
          (F.times (F.of_int64 ask.price_ticks) bid_quantity) in
      if F.equal total_quantity zero_total
      then none
      else some (F.truncate (F.divided_by weighted_price total_quantity))

  unfoldable pub microprice_ticks : OrderBook → Option ℤ
  microprice_ticks b = elim b.bids [
    | [] ↦ none
    | bid ∷ bids ↦ elim b.asks [ [] ↦ none | ask ∷ asks ↦ microprice_of bid ask ]
  ]
