-- ===== src/Masks.antt =====
-- The helpers for card and account masks (core/masks.py).
pub mod Chars
pub mod Match
pub mod Digits
pub mod Laws
pub mod Walk
pub mod Last4
mod Tests
