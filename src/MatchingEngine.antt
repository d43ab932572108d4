-- ===== src/MatchingEngine.antt =====
-- include/matching_engine.hpp and src/matching_engine.cpp.
pub mod Defs
pub mod Matching
pub mod Place
pub mod Cancel
pub mod Resting
pub mod Market
pub mod Modify
pub mod Priority
pub mod Invariant
