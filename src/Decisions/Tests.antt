-- ===== src/Decisions/Tests.antt =====
-- The category review (services/categorization/review_decisions.py) on concrete rows.
use financial_dashboard.Prelude.{ℕ, ◌≡◌, ◌⊎◌, refl, Option, none, some, String, [], ◌∷◌, All, arith}
use financial_dashboard.Outbox.Rows.{Delivery, pending, cancelled}
use financial_dashboard.Decisions.{Decision, active, ReviewedTransaction, DecisionStore}
use financial_dashboard.Decisions.Lifecycle.{supersede_active_decisions}
use financial_dashboard.Decisions.Review.{
  create_or_reuse_decision, consume_decision, ensure_legacy_decision,
}
use financial_dashboard.Decisions.Superseded.{
  supersede_leaves_none, new_proposal_stays_single, IsReused, IsOnlyActive,
}
use financial_dashboard.Decisions.Quiet.{AsksNothing, IsQuiet}
use financial_dashboard.Decisions.Once.{choice_taken_once}

abbrev transaction : ReviewedTransaction
transaction = record {
  id = 1;
  category = none;
  category_input_hash = some "h";
  review_status = some "notified";
}

abbrev decision : Decision
decision = record {
  id = 3;
  transaction_id = 1;
  source_interaction_id = none;
  category_input_hash = "h";
  candidates = "food" ∷ "fuel" ∷ [];
  proposed_slug = some "food";
  status = active;
  expires_at = some 100;
  selected_slug = none;
}

abbrev message : Delivery
message = record {
  id = 8;
  interaction_id = none;
  category_review_decision_id = some 3;
  recipient_chat_id = 5;
  transaction_id = some 1;
  status = pending;
  delivery_attempts = 0;
  worker_token = none;
  delivery_lease_until = none;
  last_attempt_at = none;
  delivered_at = none;
}

abbrev store : DecisionStore
store = record {
  decisions = decision ∷ [];
  transactions = transaction ∷ [];
  outbox = record { deliveries = message ∷ []; interactions = [] };
}

abbrev fresh_hash : ReviewedTransaction → String
fresh_hash t = "h"

abbrev assign_category : ReviewedTransaction → String → Option String
assign_category t slug = some slug

abbrev chosen : ℕ → DecisionStore → Option String × DecisionStore
chosen now s = consume_decision fresh_hash assign_category 3 "fuel" "h" (some 8) now s

taken_in_time : (chosen 99 store).0 ≡ some "fuel"
unfolding consume_decision
taken_in_time = refl

expired : (chosen 100 store).0 ≡ none
unfolding consume_decision
expired = refl

withdrawn :
    (supersede_active_decisions 1 none 9 store).outbox.deliveries
    ≡ (record message { status = cancelled }) ∷ []
unfolding supersede_active_decisions
withdrawn = refl

-- A decision of an interaction stays active beside the decision for the background prompt.
two_active :
    (ensure_legacy_decision 4 transaction
      (record store { decisions = record decision { source_interaction_id = some 6 } ∷ [] })).0.id
    ≡ 4
unfolding ensure_legacy_decision
two_active = refl

supersede_leaves_none_example :
    All (AsksNothing 1 none) (supersede_active_decisions 1 none 9 store).decisions
    × All
        (IsQuiet 1 none store.decisions)
        (supersede_active_decisions 1 none 9 store).outbox.deliveries
supersede_leaves_none_example = supersede_leaves_none 1 none 9 store

new_proposal_stays_single_example :
    IsReused transaction
      ("food" ∷ [])
      none
      9
      store
      (create_or_reuse_decision 4 transaction ("food" ∷ []) none none 9 store)
    ⊎ IsOnlyActive transaction
        (create_or_reuse_decision 4 transaction ("food" ∷ []) none none 9 store)
new_proposal_stays_single_example =
    new_proposal_stays_single 4 transaction ("food" ∷ []) none none 9 store

choice_taken_once_example :
    (consume_decision fresh_hash assign_category 3 "food" "h" none 99 (chosen 99 store).1).0 ≡ none
unfolding consume_decision
choice_taken_once_example =
    choice_taken_once fresh_hash assign_category 3 "fuel" "food" "h" (some 8) none 99 99 store
      (omega arith) refl
