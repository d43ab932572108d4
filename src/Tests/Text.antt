-- ===== src/Tests/Text.antt =====
-- Prices as texts (src/order_book.cpp), and the theorems at them.
use cmarket.Prelude.{ℕ, ◌-◌, ◌%◌, ◌≡◌, List, [], ◌∷◌, arith, pos, ok}
use cmarket.OrderBook.Text.{parse_fixed_nonnegative, price_to_ticks, power_of_ten, format_price}
use cmarket.OrderBook.Text.RoundTrip.{price_to_ticks-format_price}
use cmarket.OrderBook.Text.Bounds.{Reads, parse_fixed_nonnegative-Reads}

-- 12.345678, printed with two places.
price_to_ticks-format_price_example :
    (text : List ℕ) × (format_price (pos 12345678) 2 ≡ ok text)
    × (price_to_ticks text ≡ ok (pos (12345678 - 12345678 % power_of_ten (6 - 2))))
price_to_ticks-format_price_example =
    price_to_ticks-format_price 12345678 2 (omega arith) (omega arith)

-- `+7.25`
abbrev signed_text : List ℕ
signed_text = 43 ∷ 55 ∷ 46 ∷ 50 ∷ 53 ∷ []

parse_fixed_nonnegative-Reads_example : Reads (parse_fixed_nonnegative signed_text)
parse_fixed_nonnegative-Reads_example = parse_fixed_nonnegative-Reads signed_text
