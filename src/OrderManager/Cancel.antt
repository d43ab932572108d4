-- ===== src/OrderManager/Cancel.antt =====
-- `cancel_order` (src/order_manager.cpp) removes one order and keeps the invariant.
pub mod Sides
pub mod Removed
pub mod Refines
