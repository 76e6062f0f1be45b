-- ===== src/Cycles.antt =====
-- The billing cycle of a card statement (services/cc_cycle.py).
pub mod Anchors
pub mod Window
pub mod Order
pub mod Adjacent
pub mod Ties
mod Tests
