-- ===== src/Decisions/Review.antt =====
-- `create_or_reuse_decision`, `ensure_legacy_decision` and `consume_decision` of
-- services/categorization/review_decisions.py. The id of a new row, the hash of a transaction's
-- present input, and what `assign_category_no_commit` finds of a slug are arguments; the audit row
-- is left out.
use financial_dashboard.Prelude.{
  ℕ, ◌+◌, ◌*◌, Bool, true, false, ◌&&◌, ◌||◌, not, Option, none, some, String, str_eq, List, [],
  ◌∷◌, ◌==◌, ltb, if◌then◌else◌,
}
use financial_dashboard.Outbox.Rows.{Delivery, update_where, count_where, get_delivery}
use financial_dashboard.Decisions.{active, consumed, Decision, ReviewedTransaction, DecisionStore}
use financial_dashboard.Decisions.Lifecycle.{is_active, supersede_active_decisions}

-- `DECISION_TTL`, of seven days.
abbrev pub decision_ttl : ℕ
decision_ttl = 7 * 86400000000

unfoldable pub slug_among : String → List String → Bool
slug_among slug [] = false
slug_among slug (x ∷ xs) = str_eq slug x || slug_among slug xs

unfoldable pub all_among : List String → List String → Bool
unfolding slug_among
all_among [] ys = true
all_among (x ∷ xs) ys = slug_among x ys && all_among xs ys

abbrev equal_option : Option String → Option String → Bool
equal_option none none = true
equal_option none (some y) = false
equal_option (some x) none = false
equal_option (some x) (some y) = str_eq x y

unfoldable pub shows_same_prompt : Decision → Option String → List String → Option String → Bool
unfolding all_among
shows_same_prompt d hash candidates proposed =
    equal_option (some d.category_input_hash) hash
    && (equal_option d.proposed_slug proposed
        && (all_among d.candidates candidates && all_among candidates d.candidates))

-- `expires_at IS NULL OR expires_at > now`
abbrev pub is_fresh : ℕ → Decision → Bool
is_fresh now d = elim d.expires_at [ none ↦ true | some t ↦ ltb now t ]

-- The newer of two rows, by their ids.
abbrev pub newer : Decision → Option Decision → Option Decision
newer d none = some d
newer d (some e) = if ltb d.id e.id then some e else some d

-- `ORDER BY id DESC LIMIT 1` of the rows that the condition admits.
unfoldable pub newest : (Decision → Bool) → List Decision → Option Decision
newest p [] = none
newest p (d ∷ ds) = let rest = newest p ds in if p d then newer d rest else rest

unfoldable pub is_active_of : ℕ → Decision → Bool
is_active_of transaction_id d = d.transaction_id == transaction_id && is_active d.status

abbrev text_of : Option String → String → String
text_of none other = other
text_of (some x) other = if str_eq x "" then other else x

unfoldable pub new_decision :
    ℕ → ReviewedTransaction → List String → Option String → Option ℕ → ℕ → Decision
new_decision id txn candidates proposed source now = record {
  id = id;
  transaction_id = txn.id;
  source_interaction_id = source;
  category_input_hash = text_of txn.category_input_hash "";
  candidates = candidates;
  proposed_slug = proposed;
  status = active;
  expires_at = some (now + decision_ttl);
  selected_slug = none;
}

abbrev add_decision : Decision → DecisionStore → DecisionStore
add_decision d s = record s { decisions = d ∷ s.decisions }

unfoldable pub create_by :
    ℕ
    → ReviewedTransaction
    → List String
    → Option String
    → Option ℕ
    → ℕ
    → DecisionStore
    → Option Decision
    → Decision × DecisionStore
unfolding shows_same_prompt new_decision supersede_active_decisions
create_by id txn candidates proposed source now s none =
    let d = new_decision id txn candidates proposed source now in (d, add_decision d s)
create_by id txn candidates proposed source now s (some e) =
    let d = new_decision id txn candidates proposed source now in
    if shows_same_prompt e txn.category_input_hash candidates proposed && is_fresh now e
    then (e, s)
    else (d, add_decision d (supersede_active_decisions txn.id none now s))

unfoldable pub create_or_reuse_decision :
    ℕ
    → ReviewedTransaction
    → List String
    → Option String
    → Option ℕ
    → ℕ
    → DecisionStore
    → Decision × DecisionStore
unfolding create_by newest is_active_of
create_or_reuse_decision id txn candidates proposed source now s =
    create_by id txn candidates proposed source now s (newest (is_active_of txn.id) s.decisions)

abbrev has_no_source : Decision → Bool
has_no_source d = elim d.source_interaction_id [ none ↦ true | some i ↦ false ]

unfoldable pub ensure_legacy_decision :
    ℕ → ReviewedTransaction → DecisionStore → Decision × DecisionStore
unfolding newest is_active_of new_decision
ensure_legacy_decision id txn s =
    let d = record (new_decision id txn [] none none 0) {
      category_input_hash = text_of txn.category_input_hash "legacy";
      expires_at = none;
    } in
    elim (newest (λ x. is_active_of txn.id x && has_no_source x) s.decisions) [
      | some e ↦ (e, s)
      | none ↦ (d, add_decision d s)
    ]

unfoldable pub get_decision : ℕ → List Decision → Option Decision
get_decision id [] = none
get_decision id (d ∷ ds) = let rest = get_decision id ds in if d.id == id then some d else rest

unfoldable pub get_reviewed : ℕ → List ReviewedTransaction → Option ReviewedTransaction
get_reviewed id [] = none
get_reviewed id (t ∷ ts) = let rest = get_reviewed id ts in if t.id == id then some t else rest

abbrev awaits_review : ReviewedTransaction → Bool
awaits_review t = elim t.review_status [
  | none ↦ false
  | some x ↦ str_eq x "pending" || str_eq x "notified"
]

abbrev is_this : Option ℕ → ℕ → Bool
is_this o id = elim o [ none ↦ false | some x ↦ x == id ]

-- Whether the message is one that shows the decision.
unfoldable pub shows_decision : Decision → ℕ → Delivery → Bool
shows_decision d transaction_id m =
    is_this m.transaction_id transaction_id && elim d.source_interaction_id [
      | none ↦ is_this m.category_review_decision_id d.id
      | some i ↦ is_this m.interaction_id i
    ]

unfoldable pub is_shown : Decision → ℕ → Option ℕ → List Delivery → Bool
unfolding get_delivery shows_decision
is_shown d transaction_id none ms = true
is_shown d transaction_id (some id) ms = elim (get_delivery id ms) [
  | none ↦ false
  | some m ↦ shows_decision d transaction_id m
]

-- The row that the claim may take.
unfoldable pub is_takeable : ℕ → String → ℕ → Decision → Bool
is_takeable id hash now d =
    d.id == id && (is_active d.status && (str_eq d.category_input_hash hash && is_fresh now d))

unfoldable pub consumed_row : String → Decision → Decision
consumed_row slug d = record d { status = consumed; selected_slug = some slug }

unfoldable pub categorized : String → ReviewedTransaction → ReviewedTransaction
categorized slug t = record t { category = some slug; review_status = some "resolved" }

-- The category, the other decisions superseded, and the claim.
unfoldable pub after_choice :
    ℕ → String → String → ℕ → ReviewedTransaction → String → DecisionStore → DecisionStore
unfolding is_takeable consumed_row categorized update_where
after_choice id selected hash now t slug left = record left {
  transactions = update_where (λ x. x.id == t.id) (categorized slug) left.transactions;
  decisions = update_where (is_takeable id hash now) (consumed_row selected) left.decisions;
}

-- The nested transaction: where the claim does not take exactly one row, all of it is rolled back.
unfoldable pub take_choice :
    ℕ
    → String
    → String
    → ℕ
    → ReviewedTransaction
    → Option String
    → DecisionStore
    → Option String × DecisionStore
unfolding is_takeable after_choice count_where supersede_active_decisions
take_choice id selected hash now t none s = (none, s)
take_choice id selected hash now t (some slug) s =
    let left = supersede_active_decisions t.id (some id) now s in
    if count_where (is_takeable id hash now) left.decisions == 1
    then (some slug, after_choice id selected hash now t slug left)
    else (none, s)

module _ (fresh_hash : ReviewedTransaction → String)
    (assign_category : ReviewedTransaction → String → Option String) where
  unfoldable pub may_choose :
      Decision → ReviewedTransaction → String → String → Option ℕ → List Delivery → Bool
  unfolding slug_among is_shown
  may_choose d t selected hash delivery ms =
      slug_among selected d.candidates
      && ((not (has_no_source d) || awaits_review t)
          && (str_eq (fresh_hash t) hash
              && (str_eq (fresh_hash t) d.category_input_hash && is_shown d t.id delivery ms)))

  unfoldable pub choose_for :
      ℕ
      → Decision
      → Option ReviewedTransaction
      → String
      → String
      → Option ℕ
      → ℕ
      → DecisionStore
      → Option String × DecisionStore
  unfolding may_choose take_choice
  choose_for id d none selected hash delivery now s = (none, s)
  choose_for id d (some t) selected hash delivery now s =
      if may_choose d t selected hash delivery s.outbox.deliveries
      then take_choice id selected hash now t (assign_category t selected) s
      else (none, s)

  unfoldable pub choose_by :
      ℕ
      → Option Decision
      → String
      → String
      → Option ℕ
      → ℕ
      → DecisionStore
      → Option String × DecisionStore
  unfolding choose_for get_reviewed
  choose_by id none selected hash delivery now s = (none, s)
  choose_by id (some d) selected hash delivery now s =
      if is_active d.status
      then choose_for id d (get_reviewed d.transaction_id s.transactions) selected hash delivery now
          s
      else (none, s)

  unfoldable pub consume_decision :
      ℕ → String → String → Option ℕ → ℕ → DecisionStore → Option String × DecisionStore
  unfolding choose_by get_decision
  consume_decision id selected hash delivery now s =
      choose_by id (get_decision id s.decisions) selected hash delivery now s
