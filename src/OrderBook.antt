-- ===== src/OrderBook.antt =====
-- src/order_book.cpp and include/order_book.hpp.
pub mod Levels
pub mod Normalize
pub mod Book
pub mod Text
pub mod Averages
