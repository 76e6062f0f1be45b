-- ===== src/Settle/Answer.antt =====
-- `answer` and `_merge` of services/statement_settlement.py. The parsers of amounts and dates and
-- the lookup of the cardholder are arguments. An error is raised before the transaction commits, so
-- that the store is as before.
use financial_dashboard.Prelude.{
  ℕ, Bool, true, false, Option, none, some, String, str_eq, List, [], ◌∷◌, ◌++◌, ◌==◌,
  if◌then◌else◌,
}
use financial_dashboard.Prelude.Int.{ℤ}
use financial_dashboard.Settle.{
  HeldRow, Reconciliation, statement_gone, already_used, not_offered, unreadable, SettlementResult,
  merged, stale, failed, SettledTransaction, Upload, supersede_active_decisions,
  move_transaction_references, move_receivable_links, requeue_after_enrichment, SettlementStore,
}
use financial_dashboard.Settle.Held.{Found, found, not_found, find_row, claimed, is_in, settle_row}

-- The parsers raise; a row that one of them refuses is unreadable.
infixl 5 ◌>>=◌
abbrev pub ◌>>=◌ : {A B : Type 0} → Option A → (A → Option B) → Option B
none >>= f = none
some x >>= f = f x

-- `session.get`
unfoldable pub get_txn : ℕ → List SettledTransaction → Option SettledTransaction
get_txn id [] = none
get_txn id (t ∷ ts) = let rest = get_txn id ts in if t.id == id then some t else rest

unfoldable pub delete_txn : ℕ → List SettledTransaction → List SettledTransaction
delete_txn id [] = []
delete_txn id (t ∷ ts) = let rest = delete_txn id ts in if t.id == id then rest else t ∷ rest

-- The row of an id, as it is after the assignments to its columns.
unfoldable pub put_txn : ℕ → SettledTransaction → List SettledTransaction → List SettledTransaction
put_txn id new [] = []
put_txn id new (t ∷ ts) =
    let rest = put_txn id new ts in if t.id == id then new ∷ rest else t ∷ rest

abbrev is_given : Option String → Bool
is_given none = false
is_given (some text) = if str_eq text "" then false else true

-- `if value: column = value`
abbrev take_given : Option String → Option String → Option String
take_given value column = if is_given value then value else column

abbrev pub or_none : Option (List ℕ) → List ℕ
or_none none = []
or_none (some ids) = ids

-- A receipt of the recorded copy is taken where the target has none.
abbrev pub with_receipt : SettledTransaction → SettledTransaction → SettledTransaction
with_receipt recorded target = record target {
  attachment_path = elim target.attachment_path [
    | none ↦ recorded.attachment_path
    | some path ↦ some path
  ];
}

unfoldable pub fold_row :
    ℕ
    → Upload
    → Reconciliation
    → SettledTransaction
    → SettledTransaction
    → SettlementStore
    → SettlementStore
unfolding put_txn delete_txn settle_row
fold_row stmt_idx upload recon recorded target s = record {
  upload = some (record upload {
    reconciliation_data =
        some (record recon { missing = settle_row stmt_idx target.id recon.missing });
  });
  transactions =
      delete_txn recorded.id (put_txn target.id (with_receipt recorded target) s.transactions);
  calls =
      s.calls
      ++ (supersede_active_decisions recorded.id
          ∷ move_transaction_references recorded.id target.id
          ∷ move_receivable_links recorded.id target.id
          ∷ requeue_after_enrichment target.id
          ∷ []);
}

unfoldable pub finish :
    ℕ
    → Upload
    → Reconciliation
    → SettledTransaction
    → Option SettledTransaction
    → SettlementStore
    → SettlementResult × SettlementStore
unfolding fold_row
finish stmt_idx upload recon recorded none s = (failed unreadable, s)
finish stmt_idx upload recon recorded (some target) s =
    (merged target.id, fold_row stmt_idx upload recon recorded target s)

abbrev pub get_by : Option ℕ → List SettledTransaction → Option SettledTransaction
get_by none ts = none
get_by (some id) ts = get_txn id ts

module _ (parse_cc_amount : String → Option ℤ) (parse_cc_date : String → Option ℕ) where
  unfoldable pub merge :
      HeldRow → SettledTransaction → ℕ → Option String → Option SettledTransaction
  merge entry target upload_id holder = do
    amount ← parse_cc_amount entry.amount
    transaction_date ← parse_cc_date entry.date
    some (record target {
      amount = amount;
      amount_source = "bank";
      transaction_date = some transaction_date;
      counterparty = take_given entry.narration target.counterparty;
      card_holder = take_given holder target.card_holder;
      statement_upload_id = some upload_id;
    })

module _ (parse_cc_amount : String → Option ℤ) (parse_cc_date : String → Option ℕ)
    (statement_card_holder : Option ℕ → Option String → Option String) where
  unfoldable pub fold_into :
      ℕ
      → Upload
      → Reconciliation
      → HeldRow
      → Option SettledTransaction
      → Option SettledTransaction
      → SettlementStore
      → SettlementResult × SettlementStore
  unfolding finish merge
  fold_into stmt_idx upload recon entry none target s = (stale, s)
  fold_into stmt_idx upload recon entry (some recorded) none s = (stale, s)
  fold_into stmt_idx upload recon entry (some recorded) (some target) s =
      finish stmt_idx upload recon recorded
        (merge parse_cc_amount parse_cc_date entry target upload.id
          (statement_card_holder target.account_id entry.person))
        s

  unfoldable pub answer_row :
      ℕ → ℕ → Upload → Reconciliation → Found → SettlementStore → SettlementResult × SettlementStore
  unfolding fold_into get_txn claimed is_in
  answer_row stmt_idx transaction_id upload recon (not_found e) s = (stale, s)
  answer_row stmt_idx transaction_id upload recon (found entry) s =
      if is_in transaction_id (claimed recon)
      then (failed already_used, s)
      else if is_in transaction_id (or_none entry.candidate_transaction_ids)
      then fold_into stmt_idx upload recon entry (get_by entry.imported_txn_id s.transactions)
          (get_txn transaction_id s.transactions) s
      else (failed not_offered, s)

module _ (digest : List String → String) (parse_cc_amount : String → Option ℤ)
    (parse_cc_date : String → Option ℕ)
    (statement_card_holder : Option ℕ → Option String → Option String) where
  unfoldable pub answer_recon :
      ℕ
      → String
      → ℕ
      → Upload
      → Option Reconciliation
      → SettlementStore
      → SettlementResult × SettlementStore
  unfolding answer_row find_row
  answer_recon stmt_idx expected transaction_id upload none s = (failed statement_gone, s)
  answer_recon stmt_idx expected transaction_id upload (some recon) s =
      answer_row parse_cc_amount parse_cc_date statement_card_holder stmt_idx transaction_id upload
        recon (find_row digest recon stmt_idx expected) s

  unfoldable pub answer_upload :
      ℕ → String → ℕ → Option Upload → SettlementStore → SettlementResult × SettlementStore
  unfolding answer_recon
  answer_upload stmt_idx expected transaction_id none s = (failed statement_gone, s)
  answer_upload stmt_idx expected transaction_id (some upload) s =
      answer_recon stmt_idx expected transaction_id upload upload.reconciliation_data s

  unfoldable pub answer : ℕ → String → ℕ → SettlementStore → SettlementResult × SettlementStore
  unfolding answer_upload
  answer stmt_idx expected transaction_id s =
      answer_upload stmt_idx expected transaction_id s.upload s
