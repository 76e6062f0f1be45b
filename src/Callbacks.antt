-- ===== src/Callbacks.antt =====
-- The buttons of the Telegram messages (services/telegram.py, services/receivable_matches.py,
-- services/reminders.py): the data that each carries, and the handlers that read it back. A text is
-- the list of the code points of its characters.
pub mod Numbers
pub mod Split
pub mod Render
pub mod Read
pub mod RoundTrip
pub mod Fits
pub mod Tests
use Prim.Native.Char.{code}
use Prim.Native.String.{String}
use financial_dashboard.Prelude.{ℕ, [], ◌∷◌}
use financial_dashboard.Prelude.Int.{ℤ}
use financial_dashboard.Masks.Chars.{Text}

-- The code points of a literal.
abbrev pub codes : String → Text
codes String.[] = []
codes (String.◌∷◌ c s) = code c ∷ codes s

-- The buttons, with what each is made from.
pub data Button : Type 0 where
  settle : ℕ → ℕ → Text → ℕ → Button
  merge_sms : ℕ → ℕ → Button
  new_sms : ℕ → Button
  link_receivable : ℕ → ℕ → Button
  dismiss_receivable : ℕ → Button
  pick_account : ℕ → ℕ → Button
  skip_account : ℕ → Button
  mark_paid : ℕ → Button

-- `SettlementCallback`
pub record SettlementCallback : Type 0 where
  pub upload_id : ℤ
  pub stmt_idx : ℤ
  pub digest : Text
  pub target : ℤ

-- What a handler goes on with.
pub data Tap : Type 0 where
  to_assistant : Text → Tap
  settlement : SettlementCallback → Tap
  sms_merge : ℤ → ℤ → Tap
  sms_create : ℤ → Tap
  receivable_link : ℤ → ℤ → Tap
  receivable_dismiss : ℤ → Tap
  account_picked : ℤ → ℤ → Tap
  account_skipped : ℤ → Tap
  paid : ℤ → Tap
