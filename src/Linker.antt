-- ===== src/Linker.antt =====
-- The linker of transactions to accounts and cards (services/linker.py).
pub mod Texts
pub mod Context
pub mod Link
pub mod Found
pub mod Sound
pub mod Hits
pub mod Refused
mod Tests
