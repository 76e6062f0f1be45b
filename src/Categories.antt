-- ===== src/Categories.antt =====
-- The categories of transactions: which ones a direction admits, and the lines of the cashflow report
-- (services/categorization/polarity.py, services/cashflow/buckets.py).
pub mod Slugs
pub mod Polarity
pub mod Buckets
pub mod Stable
pub mod Scopes
pub mod Internal
pub mod Income
mod Tests
