-- ===== src/Outbox.antt =====
-- The outbox of messages (services/assistant/delivery.py).
pub mod Rows
pub mod Calls
pub mod Sweep
pub mod Cancels
pub mod Valid
pub mod Owners
pub mod Steps
pub mod Final
pub mod Recovery
pub mod Late
mod Tests
