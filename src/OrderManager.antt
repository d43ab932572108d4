-- ===== src/OrderManager.antt =====
-- include/order_manager.hpp and src/order_manager.cpp: the active orders, by identifier and by
-- priority.
pub mod Keys
pub mod Defs
pub mod Lookup
pub mod Removal
pub mod Invariant
pub mod Cancel
pub mod Add
pub mod Best
pub mod Restore
pub mod Fill
