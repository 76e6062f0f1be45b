-- ===== src/Receivables/Store.antt =====
-- The tables of the receivables ledger (services/receivables.py, db/models.py), as rows in the order
-- of insertion. An amount is a number of paise: the direction of a transaction carries its sign. A
-- call of services/person_identifiers.py, which writes a table of its own, is noted in `calls`.
use financial_dashboard.Prelude.{
  ℕ, suc, ◌+◌, Bool, true, false, ◌&&◌, not, Option, none, some, String, List, [], ◌∷◌, ◌==◌, max,
  leb, if◌then◌else◌,
}

pub data ReceivableKind : Type 0 where
  receivable payable : ReceivableKind

pub data ReceivableRole : Type 0 where
  charge payment : ReceivableRole

pub data ReceivableStatus : Type 0 where
  opened settled written_off : ReceivableStatus

pub data Direction : Type 0 where
  debit credit : Direction

abbrev pub same_direction : Direction → Direction → Bool
same_direction debit debit = true
same_direction credit credit = true
same_direction _ _ = false

abbrev pub same_status : ReceivableStatus → ReceivableStatus → Bool
same_status opened opened = true
same_status settled settled = true
same_status written_off written_off = true
same_status _ _ = false

abbrev pub is_payment : ReceivableRole → Bool
is_payment charge = false
is_payment payment = true

-- `ROLE_DIRECTION`
unfoldable pub role_direction : ReceivableKind → ReceivableRole → Direction
role_direction receivable charge = debit
role_direction receivable payment = credit
role_direction payable charge = credit
role_direction payable payment = debit

-- The columns of a transaction that the ledger reads.
pub record Transaction : Type 0 where
  pub id : ℕ
  pub direction : Direction
  pub amount : ℕ
  pub currency : Option String
  pub voided : Bool

pub record Receivable : Type 0 where
  pub id : ℕ
  pub kind : ReceivableKind
  pub person : String
  pub amount : ℕ
  pub note : Option String
  pub status : ReceivableStatus
  pub closed_at : Option ℕ

pub record Link : Type 0 where
  pub receivable_id : ℕ
  pub transaction_id : ℕ
  pub role : ReceivableRole

-- The calls of `learn_identifiers` and `rename_identifiers`.
pub data IdentifierCall : Type 0 where
  learn : String → ℕ → IdentifierCall
  rename : ℕ → String → String → IdentifierCall

pub record Prompt : Type 0 where
  pub transaction_id : ℕ
  pub delivery_id : Option ℕ

pub data DeliveryStatus : Type 0 where
  pending delivering delivery_unknown delivered abandoned cancelled : DeliveryStatus

pub record Delivery : Type 0 where
  pub id : ℕ
  pub status : DeliveryStatus
  pub worker_token : Option String
  pub lease_until : Option ℕ

pub record Store : Type 0 where
  pub transactions : List Transaction
  pub receivables : List Receivable
  pub links : List Link
  pub prompts : List Prompt
  pub deliveries : List Delivery
  pub calls : List IdentifierCall

pub data Error : Type 0 where
  not_found wrong_direction not_inr is_voided listed_twice : Error
  conflict : Error

pub data Result (A : Type 0) : Type 0 where
  ok : A → Result A
  err : Error → Result A

-- `session.get(Transaction, id)`
unfoldable pub get_transaction : ℕ → List Transaction → Option Transaction
get_transaction i [] = none
get_transaction i (t ∷ ts) = if t.id == i then some t else get_transaction i ts

unfoldable pub get_receivable : ℕ → List Receivable → Option Receivable
get_receivable i [] = none
get_receivable i (r ∷ rs) = if r.id == i then some r else get_receivable i rs

-- The flush of a changed receivable.
unfoldable pub put_receivable : Receivable → List Receivable → List Receivable
put_receivable r [] = []
put_receivable r (s ∷ rs) = if s.id == r.id then r ∷ rs else s ∷ put_receivable r rs

-- The id that SQLite gives to a new row of an integer key: one more than the largest.
unfoldable pub next_id : List Receivable → ℕ
next_id [] = 1
next_id (r ∷ rs) = max (suc r.id) (next_id rs)

-- Whether the receivable links the row, and whether the row pays one.
unfoldable pub has_link : ℕ → ℕ → List Link → Bool
has_link r t [] = false
has_link r t (l ∷ ls) =
    if l.receivable_id == r && l.transaction_id == t then true else has_link r t ls

unfoldable pub pays : ℕ → List Link → Bool
pays t [] = false
pays t (l ∷ ls) = if is_payment l.role && l.transaction_id == t then true else pays t ls

-- The unique indexes `uq_receivable_link` and `uq_receivable_payment_link`.
unfoldable pub is_unique : List Link → Bool
unfolding has_link pays
is_unique [] = true
is_unique (l ∷ ls) =
    not (has_link l.receivable_id l.transaction_id ls)
    && (not (is_payment l.role && pays l.transaction_id ls) && is_unique ls)

-- What a link adds to the paid sum of a receivable: nothing where its row is gone.
unfoldable pub link_amount : List Transaction → ℕ → Link → ℕ
unfolding get_transaction
link_amount ts r l =
    if l.receivable_id == r && is_payment l.role
    then elim (get_transaction l.transaction_id ts) [ none ↦ 0 | some t ↦ t.amount ]
    else 0

-- `_paid`
unfoldable pub paid_by : List Transaction → ℕ → List Link → ℕ
unfolding link_amount
paid_by ts r [] = 0
paid_by ts r (l ∷ ls) = link_amount ts r l + paid_by ts r ls

-- `_settle_if_paid`
unfoldable pub settle_if_paid : List Transaction → List Link → ℕ → Receivable → Receivable
unfolding paid_by
settle_if_paid ts ls now r =
    if same_status r.status opened && leb r.amount (paid_by ts r.id ls)
    then record r { status = settled; closed_at = some now }
    else r
