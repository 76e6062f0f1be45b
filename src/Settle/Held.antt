-- ===== src/Settle/Held.antt =====
-- The held rows of a reconciliation and the transactions that it uses
-- (services/statement_settlement.py). `digest` stands for the shortened SHA-256 of the JSON of a list.
use financial_dashboard.Prelude.{
  ℕ, Bool, false, ◌&&◌, ◌||◌, Option, none, some, String, str_eq, List, [], ◌∷◌, ◌++◌, ◌==◌,
  keep_if, is_some, if◌then◌else◌,
}
use financial_dashboard.Settle.{
  HeldRow, MatchedRow, Reconciliation, SettlementError, row_changed, not_awaiting,
}

abbrev text_or : Option String → String
text_or none = ""
text_or (some text) = text

unfoldable pub row_digest : (List String → String) → HeldRow → String
row_digest digest entry = digest (
    entry.date
    ∷ entry.amount
    ∷ entry.direction
    ∷ text_or entry.narration
    ∷ text_or entry.card_number
    ∷ text_or entry.person
    ∷ [])

abbrev or_false : Option Bool → Bool
or_false none = false
or_false (some b) = b

unfoldable pub is_held : HeldRow → Bool
is_held entry = or_false entry.ambiguous && is_some entry.imported_txn_id

unfoldable pub held_rows : Reconciliation → List HeldRow
unfolding keep_if is_held
held_rows recon = keep_if is_held recon.missing

pub data Found : Type 0 where
  found : HeldRow → Found
  not_found : SettlementError → Found

-- The `for` over the held rows.
unfoldable pub find_in : (List String → String) → ℕ → String → List HeldRow → Found
unfolding row_digest
find_in digest stmt_idx expected [] = not_found not_awaiting
find_in digest stmt_idx expected (entry ∷ entries) =
    let rest = find_in digest stmt_idx expected entries in
    if entry.stmt_idx == stmt_idx
    then (if str_eq (row_digest digest entry) expected then found entry else not_found row_changed)
    else rest

unfoldable pub find_row : (List String → String) → Reconciliation → ℕ → String → Found
unfolding find_in held_rows
find_row digest recon stmt_idx expected = find_in digest stmt_idx expected (held_rows recon)

abbrev pub add_some : Option ℕ → List ℕ → List ℕ
add_some none ids = ids
add_some (some id) ids = id ∷ ids

unfoldable pub matched_ids : List MatchedRow → List ℕ
matched_ids [] = []
matched_ids (row ∷ rows) = add_some row.db_txn_id (matched_ids rows)

unfoldable pub imported_ids : List HeldRow → List ℕ
imported_ids [] = []
imported_ids (row ∷ rows) = add_some row.imported_txn_id (imported_ids rows)

unfoldable pub claimed : Reconciliation → List ℕ
unfolding matched_ids imported_ids
claimed recon = matched_ids recon.matched ++ imported_ids recon.missing

unfoldable pub is_in : ℕ → List ℕ → Bool
is_in id [] = false
is_in id (x ∷ ids) = id == x || is_in id ids

-- `entry["imported_txn_id"] = …; entry["ambiguous"] = False`, on the row that `find_row` finds: the
-- first held row with the index.
unfoldable pub settle_row : ℕ → ℕ → List HeldRow → List HeldRow
unfolding is_held
settle_row stmt_idx transaction_id [] = []
settle_row stmt_idx transaction_id (entry ∷ entries) =
    let rest = settle_row stmt_idx transaction_id entries in
    if is_held entry && entry.stmt_idx == stmt_idx
    then record entry { imported_txn_id = some transaction_id; ambiguous = some false } ∷ entries
    else entry ∷ rest
