-- ===== src/Settle.antt =====
-- The data of the settlement of held statement rows (services/statement_settlement.py). The stored
-- reconciliation is the value that its JSON text is read as, none where there is no text. An amount is
-- a number of minor units, a date a number of days.
pub mod Held
pub mod Answer
pub mod Outcome
pub mod Rows
pub mod Search
pub mod Claims
pub mod Once
pub mod Tests
use financial_dashboard.Prelude.{ℕ, Bool, Option, String, List}
use financial_dashboard.Prelude.Int.{ℤ}

-- A key that may be absent is an option.
pub record HeldRow : Type 0 where
  pub stmt_idx : ℕ
  pub date : String
  pub amount : String
  pub direction : String
  pub narration : Option String
  pub card_number : Option String
  pub person : Option String
  pub imported : Bool
  pub imported_txn_id : Option ℕ
  pub ambiguous : Option Bool
  pub candidate_transaction_ids : Option (List ℕ)

pub record MatchedRow : Type 0 where
  pub stmt_idx : ℕ
  pub db_txn_id : Option ℕ

pub record Reconciliation : Type 0 where
  pub matched : List MatchedRow
  pub missing : List HeldRow

-- The messages of a `SettlementError`.
pub data SettlementError : Type 0 where
  statement_gone row_changed not_awaiting already_used not_offered unreadable : SettlementError

-- A `SettlementResult`, or the error that `answer` raises.
pub data SettlementResult : Type 0 where
  merged : ℕ → SettlementResult
  stale : SettlementResult
  failed : SettlementError → SettlementResult

-- A stored transaction, with the columns that the settlement reads or writes.
pub record SettledTransaction : Type 0 where
  pub id : ℕ
  pub account_id : Option ℕ
  pub amount : ℤ
  pub amount_source : String
  pub transaction_date : Option ℕ
  pub counterparty : Option String
  pub card_holder : Option String
  pub statement_upload_id : Option ℕ
  pub attachment_path : Option String

pub record Upload : Type 0 where
  pub id : ℕ
  pub reconciliation_data : Option Reconciliation

-- The calls of other parts of the program, in order.
pub data SettlementCall : Type 0 where
  supersede_active_decisions : ℕ → SettlementCall
  move_transaction_references : ℕ → ℕ → SettlementCall
  move_receivable_links : ℕ → ℕ → SettlementCall
  requeue_after_enrichment : ℕ → SettlementCall

-- The upload that the answer names, the stored transactions and the calls that were made.
pub record SettlementStore : Type 0 where
  pub upload : Option Upload
  pub transactions : List SettledTransaction
  pub calls : List SettlementCall
