-- ===== src/Decisions.antt =====
-- The decisions of the category review (services/categorization/review_decisions.py and
-- decision_lifecycle.py), beside the messages of Outbox that show them. Candidates are their slugs.
pub mod Lifecycle
pub mod Review
pub mod Quiet
pub mod Superseded
pub mod Once
mod Tests
use financial_dashboard.Prelude.{ℕ, Option, String, List}
use financial_dashboard.Outbox.Rows.{Store}

pub data DecisionStatus : Type 0 where
  active consumed superseded : DecisionStatus

-- The columns of `CategoryReviewDecision` that the calls compare or write.
pub record Decision : Type 0 where
  pub id : ℕ
  pub transaction_id : ℕ
  pub source_interaction_id : Option ℕ
  pub category_input_hash : String
  pub candidates : List String
  pub proposed_slug : Option String
  pub status : DecisionStatus
  pub expires_at : Option ℕ
  pub selected_slug : Option String

-- The columns of a transaction that the review compares or writes.
pub record ReviewedTransaction : Type 0 where
  pub id : ℕ
  pub category : Option String
  pub category_input_hash : Option String
  pub review_status : Option String

pub record DecisionStore : Type 0 where
  pub decisions : List Decision
  pub transactions : List ReviewedTransaction
  pub outbox : Store
