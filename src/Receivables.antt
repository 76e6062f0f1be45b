-- ===== src/Receivables.antt =====
-- The receivables ledger (services/receivables.py): the rows that charge and pay each receivable.
pub mod Store
pub mod Links
pub mod Edit
pub mod Move
pub mod Read
pub mod Rules
pub mod Valid
pub mod Outcome
pub mod Ids
mod Tests
