-- ===== src/Sync.antt =====
-- The per-extension sync state of the Paisa coordinator (services/paisa/sync_state.py), with the
-- dirty triggers of db/init_db.py.
pub mod Row
pub mod Backoff
pub mod Eligibility
pub mod Lease
pub mod Complete
pub mod Admin
pub mod Valid
pub mod World
pub mod Keeps
pub mod Fencing
pub mod Exclusion
pub mod Due
pub mod Drift
pub mod Quality
pub mod Delay
mod Tests
