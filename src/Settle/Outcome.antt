-- ===== src/Settle/Outcome.antt =====
-- How `answer` (services/statement_settlement.py) ends.
use financial_dashboard.Prelude.{
  ℕ, ◌≡◌, refl, ◌⊎◌, inl, inr, Bool, true, false, Bool-cases, Option, none, some, Option-cases,
  String, List,
}
use financial_dashboard.Prelude.Int.{ℤ}
use financial_dashboard.Settle.{
  HeldRow, Reconciliation, SettlementResult, merged, stale, failed, SettledTransaction, Upload,
  SettlementStore,
}
use financial_dashboard.Settle.Held.{Found, found, not_found, find_row, claimed, is_in}
use financial_dashboard.Settle.Answer.{
  get_txn, merge, fold_row, finish, fold_into, answer_row, answer_recon, answer_upload, answer,
  or_none, get_by,
}

abbrev pub is_merged : SettlementResult → Bool
is_merged (merged id) = true
is_merged stale = false
is_merged (failed e) = false

-- Nothing is written, and the answer says so.
abbrev pub IsRefused : SettlementStore → SettlementResult × SettlementStore → Type 0
IsRefused s p = (is_merged p.0 ≡ false) × (p.1 ≡ s)

-- What a merge rests on: the row that is found, the recorded copy of it, and the transaction.
pub record Merging : Type 0 where
  pub upload : Upload
  pub recon : Reconciliation
  pub entry : HeldRow
  pub recorded : SettledTransaction
  pub target : SettledTransaction
  pub folded : SettledTransaction

module _ (digest : List String → String) (parse_cc_amount : String → Option ℤ)
    (parse_cc_date : String → Option ℕ)
    (statement_card_holder : Option ℕ → Option String → Option String) where
  abbrev pub Merges : ℕ → String → ℕ → SettlementStore → Merging → Type 0
  Merges stmt_idx expected transaction_id s m =
      (s.upload ≡ some m.upload)
      × (m.upload.reconciliation_data ≡ some m.recon)
      × (find_row digest m.recon stmt_idx expected ≡ found m.entry)
      × (is_in transaction_id (claimed m.recon) ≡ false)
      × (is_in transaction_id (or_none m.entry.candidate_transaction_ids) ≡ true)
      × (get_by m.entry.imported_txn_id s.transactions ≡ some m.recorded)
      × (get_txn transaction_id s.transactions ≡ some m.target)
      × (merge parse_cc_amount parse_cc_date m.entry m.target m.upload.id
            (statement_card_holder m.target.account_id m.entry.person)
          ≡ some m.folded)

  abbrev pub Ends : ℕ → String → ℕ → SettlementStore → SettlementResult × SettlementStore → Type 0
  Ends stmt_idx expected transaction_id s p =
      IsRefused s p
      ⊎ ((m : Merging) × (Merges stmt_idx expected transaction_id s m
            × (p ≡ (merged m.folded.id, fold_row stmt_idx m.upload m.recon m.recorded m.folded s))))

  row-Ends :
      (stmt_idx : ℕ) (expected : String) (transaction_id : ℕ) (s : SettlementStore)
      (upload : Upload) (recon : Reconciliation)
      → s.upload ≡ some upload
      → upload.reconciliation_data ≡ some recon
      → (f : Found) → find_row digest recon stmt_idx expected ≡ f
      → Ends stmt_idx expected transaction_id s (
          answer_row parse_cc_amount parse_cc_date statement_card_holder stmt_idx transaction_id
            upload recon f s)
  unfolding answer_row fold_into finish
  row-Ends stmt_idx expected transaction_id s upload recon u r (not_found e) f = inl (refl, refl)
  row-Ends stmt_idx expected transaction_id s upload recon u r (found entry) f =
      elim (Bool-cases (is_in transaction_id (claimed recon))) [
        | inl c ↦ inl (rw c (refl, refl))
        | inr c ↦
            elim (Bool-cases (is_in transaction_id (or_none entry.candidate_transaction_ids))) [
              | inr o ↦ inl (rw (c, o) (refl, refl))
              | inl o ↦ elim (Option-cases (get_by entry.imported_txn_id s.transactions)) [
                | inl g ↦ inl (rw (c, o, g) (refl, refl))
                | inr (recorded, g) ↦ elim (Option-cases (get_txn transaction_id s.transactions)) [
                  | inl t ↦ inl (rw (c, o, g, t) (refl, refl))
                  | inr (target, t) ↦
                      elim (Option-cases (
                        merge parse_cc_amount parse_cc_date entry target upload.id
                          (statement_card_holder target.account_id entry.person))) [
                            | inl m ↦ inl (rw (c, o, g, t, m) (refl, refl))
                            | inr (folded, m) ↦ inr (
                              record {
                                upload = upload;
                                recon = recon;
                                entry = entry;
                                recorded = recorded;
                                target = target;
                                folded = folded;
                              },
                              ((u, r, f, c, o, g, t, m), rw (c, o, g, t, m) refl),
                            )
                          ]
                ]
              ]
            ]
      ]

  recon-Ends :
      (stmt_idx : ℕ) (expected : String) (transaction_id : ℕ) (s : SettlementStore)
      (upload : Upload)
      → s.upload ≡ some upload
      → (recon : Option Reconciliation) → upload.reconciliation_data ≡ recon
      → Ends stmt_idx expected transaction_id s (
          answer_recon digest parse_cc_amount parse_cc_date statement_card_holder stmt_idx expected
            transaction_id upload recon s)
  unfolding answer_recon
  recon-Ends stmt_idx expected transaction_id s upload u none r = inl (refl, refl)
  recon-Ends stmt_idx expected transaction_id s upload u (some recon) r =
      row-Ends stmt_idx expected transaction_id s upload recon u r _ refl

  upload-Ends :
      (stmt_idx : ℕ) (expected : String) (transaction_id : ℕ) (s : SettlementStore)
      → (upload : Option Upload) → s.upload ≡ upload
      → Ends stmt_idx expected transaction_id s (
          answer_upload digest parse_cc_amount parse_cc_date statement_card_holder stmt_idx expected
            transaction_id upload s)
  unfolding answer_upload
  upload-Ends stmt_idx expected transaction_id s none u = inl (refl, refl)
  upload-Ends stmt_idx expected transaction_id s (some upload) u =
      recon-Ends stmt_idx expected transaction_id s upload u _ refl

  pub answer-Ends :
      (stmt_idx : ℕ) (expected : String) (transaction_id : ℕ) (s : SettlementStore)
      → Ends stmt_idx expected transaction_id s (
          answer digest parse_cc_amount parse_cc_date statement_card_holder stmt_idx expected
            transaction_id s)
  unfolding answer
  answer-Ends stmt_idx expected transaction_id s =
      upload-Ends stmt_idx expected transaction_id s s.upload refl
