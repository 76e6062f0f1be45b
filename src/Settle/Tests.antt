-- ===== src/Settle/Tests.antt =====
-- Answers for held statement rows (services/statement_settlement.py) on concrete rows.
use financial_dashboard.Prelude.{
  ℕ, ◌≡◌, refl, true, false, Option, none, some, String, str_eq, List, [], ◌∷◌, ◌==◌, AreDistinct,
  if◌then◌else◌,
}
use financial_dashboard.Prelude.Int.{ℤ, pos}
use financial_dashboard.Settle.{
  HeldRow, SettledTransaction, SettlementStore, SettlementResult, merged, stale, failed,
  already_used, not_offered,
}
use financial_dashboard.Settle.Held.{claimed}
use financial_dashboard.Settle.Answer.{answer, get_txn, with_receipt}
use financial_dashboard.Settle.Outcome.{is_merged, Merging, Merges}
use financial_dashboard.Settle.Claims.{claims_of}
use financial_dashboard.Settle.Once.{claims_stay_distinct, answered_once, merged_rows_lem}

abbrev digest : List String → String
digest [] = ""
digest (text ∷ texts) = text

abbrev parse_cc_amount : String → Option ℤ
parse_cc_amount text = if str_eq text "500" then some (pos 50000) else none

abbrev parse_cc_date : String → Option ℕ
parse_cc_date text = if str_eq text "02/03/2024" then some 19784 else none

abbrev statement_card_holder : Option ℕ → Option String → Option String
statement_card_holder account_id person = person

-- The statement row 4 is recorded as transaction 7; it may be transaction 3 or 5.
abbrev held : HeldRow
held = record {
  stmt_idx = 4;
  date = "02/03/2024";
  amount = "500";
  direction = "debit";
  narration = some "SHOP";
  card_number = none;
  person = none;
  imported = true;
  imported_txn_id = some 7;
  ambiguous = some true;
  candidate_transaction_ids = some (3 ∷ 5 ∷ []);
}

abbrev stored : ℕ → Option String → SettledTransaction
stored id path = record {
  id = id;
  account_id = some 1;
  amount = pos 49900;
  amount_source = "alert";
  transaction_date = none;
  counterparty = none;
  card_holder = none;
  statement_upload_id = none;
  attachment_path = path;
}

abbrev store : SettlementStore
store = record {
  upload = some (record {
    id = 2;
    reconciliation_data = some (record {
      matched = record { stmt_idx = 0; db_txn_id = some 5 } ∷ [];
      missing = held ∷ [];
    });
  });
  transactions = stored 3 none ∷ stored 5 none ∷ stored 7 (some "receipt") ∷ [];
  calls = [];
}

abbrev answered : ℕ → String → ℕ → SettlementStore → SettlementResult × SettlementStore
answered = answer digest parse_cc_amount parse_cc_date statement_card_holder

first_tap : (answered 4 "02/03/2024" 3 store).0 ≡ merged 3
unfolding answer
first_tap = refl

second_tap : (answered 4 "02/03/2024" 3 (answered 4 "02/03/2024" 3 store).1).0 ≡ stale
unfolding answer
second_tap = refl

taken : (answered 4 "02/03/2024" 5 store).0 ≡ failed already_used
unfolding answer
taken = refl

not_a_candidate : (answered 4 "02/03/2024" 9 store).0 ≡ failed not_offered
unfolding answer
not_a_candidate = refl

changed_row : (answered 4 "03/03/2024" 3 store).0 ≡ stale
unfolding answer
changed_row = refl

claims_stay_distinct_example : AreDistinct (claims_of (answered 4 "02/03/2024" 3 store).1)
unfolding claimed
claims_stay_distinct_example =
    claims_stay_distinct digest parse_cc_amount parse_cc_date statement_card_holder 4 "02/03/2024" 3
      store ((refl, tt), (tt, tt))

answered_once_example :
    is_merged (answered 4 "02/03/2024" 3 (answered 4 "02/03/2024" 3 store).1).0 ≡ false
unfolding answer
answered_once_example =
    answered_once digest parse_cc_amount parse_cc_date statement_card_holder 4 4 "02/03/2024"
      "02/03/2024" 3 store refl

merged_rows_lem_example :
    (m : Merging) × (Merges digest parse_cc_amount parse_cc_date statement_card_holder 4
        "02/03/2024" 3 store m
      × ((m.recorded.id == 3) ≡ false)
      × (get_txn 5 (answered 4 "02/03/2024" 3 store).1.transactions ≡ (
          if 5 == m.recorded.id
          then none
          else if 5 == 3
          then some (with_receipt m.recorded m.folded)
          else get_txn 5 store.transactions)))
unfolding answer
merged_rows_lem_example =
    merged_rows_lem digest parse_cc_amount parse_cc_date statement_card_holder 4 "02/03/2024" 3
      store 5 refl
