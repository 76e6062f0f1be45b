-- ===== src/Settle/Once.antt =====
-- A transaction that an answer folds a row into is used once (services/statement_settlement.py).
use financial_dashboard.Prelude.{
  ℕ, ◌≡◌, refl, sym, subst, ap, ◌∙◌, inl, inr, true, false, Bool-cases, Option, none, some,
  Option-cases, String, List, ◌++◌, ◌==◌, ==_iff, AreDistinct, arith, if◌then◌else◌,
}
use financial_dashboard.Prelude.Int.{ℤ}
use financial_dashboard.Settle.{SettlementStore, SettlementResult}
use financial_dashboard.Settle.Held.{
  find_row, held_rows, claimed, matched_ids, imported_ids, is_in, settle_row,
}
use financial_dashboard.Settle.Answer.{answer, fold_row, get_by, get_txn, put_txn, with_receipt}
use financial_dashboard.Settle.Outcome.{is_merged, Merging, Merges, answer-Ends}
use financial_dashboard.Settle.Rows.{id-get_txn, id-merge, get_txn-delete_txn, get_txn-put_txn}
use financial_dashboard.Settle.Claims.{claims_of, appended-AreDistinct, not_in}
use financial_dashboard.Settle.Search.{settled_is_in, found_is_in, is_in-append}

claims_of_store :
    (s : SettlementStore) (m : Merging)
    → s.upload ≡ some m.upload
    → m.upload.reconciliation_data ≡ some m.recon
    → claims_of s ≡ claimed m.recon
claims_of_store s m u r = rw (u, r) refl

claims_of_folded :
    (stmt_idx t : ℕ) (s : SettlementStore) (m : Merging)
    → m.folded.id ≡ t
    → claims_of (fold_row stmt_idx m.upload m.recon m.recorded m.folded s)
      ≡ (matched_ids m.recon.matched ++ imported_ids (settle_row stmt_idx t m.recon.missing))
unfolding fold_row claimed
claims_of_folded stmt_idx t s m h = rw h refl

differs : (t a : ℕ) (ids : List ℕ) → is_in a ids ≡ true → is_in t ids ≡ false → (a == t) ≡ false
differs t a ids h k = elim (Bool-cases (a == t)) [
  | inl e ↦ absurd (ground (arith, sym (ap (λ z. is_in z ids) ((==_iff a t).0 e)) ∙ h, k))
  | inr e ↦ e
]

module _ (digest : List String → String) (parse_cc_amount : String → Option ℤ)
    (parse_cc_date : String → Option ℕ)
    (statement_card_holder : Option ℕ → Option String → Option String) where
  abbrev Merged : ℕ → String → ℕ → SettlementStore → Merging → Type 0
  Merged = Merges digest parse_cc_amount parse_cc_date statement_card_holder

  abbrev answered : ℕ → String → ℕ → SettlementStore → SettlementResult × SettlementStore
  answered = answer digest parse_cc_amount parse_cc_date statement_card_holder

  folded-id :
      (stmt_idx : ℕ) (expected : String) (t : ℕ) (s : SettlementStore) (m : Merging)
      → Merged stmt_idx expected t s m
      → m.folded.id ≡ t
  folded-id stmt_idx expected t s m h =
      id-merge parse_cc_amount parse_cc_date _ _ _ _ _ h.7 ∙ id-get_txn t s.transactions _ h.6

  folded-AreDistinct :
      (stmt_idx : ℕ) (expected : String) (t : ℕ) (s : SettlementStore) (m : Merging)
      → Merged stmt_idx expected t s m
      → AreDistinct (claims_of s)
      → AreDistinct (claims_of (fold_row stmt_idx m.upload m.recon m.recorded m.folded s))
  unfolding claimed
  folded-AreDistinct stmt_idx expected t s m h d =
      subst AreDistinct
        (sym (claims_of_folded stmt_idx t s m (folded-id stmt_idx expected t s m h)))
        (appended-AreDistinct stmt_idx t (matched_ids m.recon.matched) m.recon.missing
          (subst AreDistinct (claims_of_store s m h.0 h.1) d) (not_in t (claimed m.recon) h.3))

  -- No two rows of a statement use one transaction: where they are distinct, they are after every
  -- answer, whatever its result.
  pub claims_stay_distinct :
      (stmt_idx : ℕ) (expected : String) (t : ℕ) (s : SettlementStore)
      → AreDistinct (claims_of s)
      → AreDistinct (claims_of (answered stmt_idx expected t s).1)
  claims_stay_distinct stmt_idx expected t s d =
      elim (answer-Ends digest parse_cc_amount parse_cc_date statement_card_holder stmt_idx expected
        t s) [
          | inl (refused, e) ↦ rw e d
          | inr (m, (h, e)) ↦ rw e (folded-AreDistinct stmt_idx expected t s m h d)
        ]

  merged_is_in :
      (stmt_idx : ℕ) (expected : String) (t : ℕ) (s : SettlementStore)
      → is_merged (answered stmt_idx expected t s).0 ≡ true
      → is_in t (claims_of (answered stmt_idx expected t s).1) ≡ true
  unfolding find_row held_rows
  merged_is_in stmt_idx expected t s k =
      elim (answer-Ends digest parse_cc_amount parse_cc_date statement_card_holder stmt_idx expected
        t s) [
          | inl (refused, e) ↦ ground (arith, k, refused)
          | inr (m, (h, e)) ↦
              rw (e, claims_of_folded stmt_idx t s m (folded-id stmt_idx expected t s m h))
                (is_in-append t (matched_ids m.recon.matched) _
                  (settled_is_in digest stmt_idx expected t m.recon.missing m.entry h.2))
        ]

  used_is_refused :
      (stmt_idx : ℕ) (expected : String) (t : ℕ) (s : SettlementStore)
      → is_in t (claims_of s) ≡ true
      → is_merged (answered stmt_idx expected t s).0 ≡ false
  used_is_refused stmt_idx expected t s k =
      elim (answer-Ends digest parse_cc_amount parse_cc_date statement_card_holder stmt_idx expected
        t s) [
          | inl (refused, e) ↦ refused
          | inr (m, (h, e)) ↦
              absurd (ground (arith, sym (ap (is_in t) (claims_of_store s m h.0 h.1)) ∙ k, h.3))
        ]

  -- An answer is given once: after an answer that folds a row into a transaction, no answer for the
  -- same statement folds a row into that transaction, whichever row it names and whatever digest it
  -- carries; a second tap on the same button among them.
  pub answered_once :
      (stmt_idx next_idx : ℕ) (expected next_expected : String) (t : ℕ) (s : SettlementStore)
      → is_merged (answered stmt_idx expected t s).0 ≡ true
      → is_merged (answered next_idx next_expected t (answered stmt_idx expected t s).1).0 ≡ false
  answered_once stmt_idx next_idx expected next_expected t s k =
      used_is_refused next_idx next_expected t _ (merged_is_in stmt_idx expected t s k)

  recorded_differs :
      (stmt_idx : ℕ) (expected : String) (t : ℕ) (s : SettlementStore) (m : Merging)
      → Merged stmt_idx expected t s m
      → (m.recorded.id == t) ≡ false
  unfolding find_row held_rows claimed
  recorded_differs stmt_idx expected t s m h = elim (Option-cases m.entry.imported_txn_id) [
    | inl e ↦ absurd (ground (arith, sym (ap (λ o. get_by o s.transactions) e) ∙ h.5))
    | inr (i, e) ↦
        differs t m.recorded.id (claimed m.recon)
          (is_in-append m.recorded.id (matched_ids m.recon.matched) _ (
            subst (λ z. is_in z (imported_ids m.recon.missing) ≡ true)
              (sym (
                id-get_txn i s.transactions m.recorded
                  (sym (ap (λ o. get_by o s.transactions) e) ∙ h.5)))
              (found_is_in digest stmt_idx expected m.recon.missing m.entry h.2 i e)))
          h.3
  ]

  -- What a merge does to the stored transactions: the recorded copy of the row is deleted, the
  -- transaction that was chosen, which is not that copy, has the statement's values and the copy's
  -- receipt where it had none, and every other transaction is as before.
  pub merged_rows_lem :
      (stmt_idx : ℕ) (expected : String) (t : ℕ) (s : SettlementStore) (x : ℕ)
      → is_merged (answered stmt_idx expected t s).0 ≡ true
      → (m : Merging) × (Merged stmt_idx expected t s m
          × ((m.recorded.id == t) ≡ false)
          × (get_txn x (answered stmt_idx expected t s).1.transactions ≡ (
              if x == m.recorded.id
              then none
              else if x == t
              then some (with_receipt m.recorded m.folded)
              else get_txn x s.transactions)))
  unfolding fold_row
  merged_rows_lem stmt_idx expected t s x k =
      elim (answer-Ends digest parse_cc_amount parse_cc_date statement_card_holder stmt_idx expected
        t s) [
          | inl (refused, e) ↦ absurd (ground (arith, k, refused))
          | inr (m, (h, e)) ↦ (
            m,
            (
              h,
              recorded_differs stmt_idx expected t s m h,
              ap (λ p. get_txn x p.1.transactions) e
                  ∙ get_txn-delete_txn x m.recorded.id _
                  ∙ ap (λ found. if x == m.recorded.id then none else found)
                      (ap
                          (λ i.
                            get_txn x (put_txn i (with_receipt m.recorded m.folded) s.transactions))
                          (folded-id stmt_idx expected t s m h)
                        ∙ get_txn-put_txn x t (with_receipt m.recorded m.folded) m.target
                            s.transactions (folded-id stmt_idx expected t s m h) h.6),
            ),
          )
        ]
