-- ===== src/Callbacks/Read.antt =====
-- The routing of a tap (`_handle_callback` of services/telegram.py) and what each handler reads of
-- its data. That the message is of the configured chat is checked before, and left out.
use financial_dashboard.Prelude.{
  ℕ, ◌+◌, Bool, true, false, ◌&&◌, ◌||◌, Option, none, some, List, [], ◌∷◌, ltb, if◌then◌else◌,
}
use financial_dashboard.Prelude.Int.{ℤ, pos_part}
use financial_dashboard.Masks.Chars.{Text, is_digit}
use financial_dashboard.Linker.Texts.{same_text, starts_with}
use financial_dashboard.Callbacks.{
  codes, Tap, to_assistant, settlement, sms_merge, sms_create, receivable_link, receivable_dismiss,
  account_picked, account_skipped, paid,
}
use financial_dashboard.Callbacks.Numbers.{int_of}
use financial_dashboard.Callbacks.Split.{split, split_at_most}

-- A `ValueError` of a number ends the reading.
infixl 5 ◌>>=◌
abbrev ◌>>=◌ : {A B : Type 0} → Option A → (A → Option B) → Option B
none >>= f = none
some x >>= f = f x

unfoldable pub settlement_ids : Text → Text → Text → Text → Option Tap
unfolding int_of
settlement_ids upload idx digest target = do
  upload_id ← int_of upload
  stmt_idx ← int_of idx
  target_id ← int_of target
  some (
      settlement (record {
        upload_id = upload_id;
        stmt_idx = stmt_idx;
        digest = digest;
        target = target_id;
      }))

unfoldable pub settlement_of : List Text → Option Tap
unfolding settlement_ids same_text
settlement_of (st ∷ m ∷ upload ∷ idx ∷ digest ∷ target ∷ []) =
    if same_text st (codes "st") && same_text m (codes "m")
    then settlement_ids upload idx digest target
    else none
settlement_of _ = none

-- `_parse_settlement_callback`
unfoldable pub parse_settlement_callback : Text → Option Tap
unfolding settlement_of split
parse_settlement_callback text = settlement_of (split text)

-- The bytes of one character in UTF-8.
abbrev char_bytes : ℕ → ℕ
char_bytes c = if ltb c 128 then 1 else if ltb c 2048 then 2 else if ltb c 65536 then 3 else 4

-- `len(data.encode())`
unfoldable pub encoded_length : Text → ℕ
encoded_length [] = 0
encoded_length (c ∷ s) = char_bytes c + encoded_length s

abbrev above_zero : ℤ → Bool
above_zero x = ltb 0 (pos_part x)

unfoldable pub merge_ids : Text → Text → Option Tap
unfolding int_of
merge_ids sms transaction = do
  sms_id ← int_of sms
  transaction_id ← int_of transaction
  if above_zero sms_id && above_zero transaction_id
      then some (sms_merge sms_id transaction_id)
      else none

unfoldable pub create_id : Text → Option Tap
unfolding int_of
create_id sms = do sms_id ← int_of sms; if above_zero sms_id then some (sms_create sms_id) else none

unfoldable pub sms_of : List Text → Option Tap
unfolding merge_ids create_id same_text
sms_of (p ∷ v ∷ action ∷ sms ∷ transaction ∷ []) =
    if same_text p (codes "smsdup") && same_text v (codes "v1") && same_text action (codes "m")
    then merge_ids sms transaction
    else none
sms_of (p ∷ v ∷ action ∷ sms ∷ []) =
    if same_text p (codes "smsdup") && same_text v (codes "v1") && same_text action (codes "n")
    then create_id sms
    else none
sms_of _ = none

-- `_parse_sms_duplicate_callback`
unfoldable pub parse_sms_duplicate_callback : Text → Option Tap
unfolding sms_of split encoded_length
parse_sms_duplicate_callback text =
    if ltb 64 (encoded_length text) then none else sms_of (split text)

unfoldable pub only_digits : Text → Bool
unfolding is_digit
only_digits [] = true
only_digits (c ∷ s) = is_digit c && only_digits s

-- `isdigit`
unfoldable pub is_number : Text → Bool
unfolding only_digits
is_number [] = false
is_number (c ∷ s) = only_digits (c ∷ s)

unfoldable pub link_ids : Text → Text → Option Tap
unfolding int_of
link_ids prompt receivable = do
  prompt_id ← int_of prompt
  receivable_id ← int_of receivable
  some (receivable_link prompt_id receivable_id)

unfoldable pub dismiss_id : Text → Option Tap
unfolding int_of
dismiss_id prompt = do prompt_id ← int_of prompt; some (receivable_dismiss prompt_id)

-- The `match` of `_handle_receivable_match_callback`.
unfoldable pub receivable_of : List Text → Option Tap
unfolding link_ids dismiss_id same_text is_number
receivable_of (r ∷ v ∷ action ∷ prompt ∷ receivable ∷ []) =
    if same_text r (codes "rcv")
      && same_text v (codes "v1")
      && same_text action (codes "l")
      && is_number prompt
      && is_number receivable
    then link_ids prompt receivable
    else none
receivable_of (r ∷ v ∷ action ∷ prompt ∷ []) =
    if same_text r (codes "rcv")
      && same_text v (codes "v1")
      && same_text action (codes "x")
      && is_number prompt
    then dismiss_id prompt
    else none
receivable_of _ = none

-- The choice of an account, or to skip.
unfoldable pub choice_of : ℤ → Text → Option Tap
unfolding int_of same_text
choice_of txn_id choice =
    if same_text choice (codes "skip")
    then some (account_skipped txn_id)
    else (int_of choice >>= λ account_id. some (account_picked txn_id account_id))

-- `_handle_cc_pay_pick_callback`
unfoldable pub pay_pick_of : List Text → Option Tap
unfolding int_of choice_of
pay_pick_of (prefix ∷ txn ∷ choice ∷ []) = do txn_id ← int_of txn; choice_of txn_id choice
pay_pick_of _ = none

-- `handle_mark_paid_callback`: the part after the first colon.
unfoldable pub paid_of : List Text → Option Tap
unfolding int_of
paid_of (prefix ∷ upload ∷ rest) = do upload_id ← int_of upload; some (paid upload_id)
paid_of _ = none

-- `_handle_callback`, none where the tap is answered with an error.
unfoldable pub handle_callback : Text → Option Tap
unfolding starts_with paid_of parse_sms_duplicate_callback receivable_of parse_settlement_callback
    pay_pick_of split split_at_most
handle_callback text =
    if starts_with (codes "cat:v1:") text
      || starts_with (codes "undo:v1:") text
      || starts_with (codes "pc:v1:") text
    then some (to_assistant text)
    else if starts_with (codes "paid:") text
    then paid_of (split text)
    else if starts_with (codes "smsdup:v1:") text
    then parse_sms_duplicate_callback text
    else if starts_with (codes "rcv:v1:") text
    then receivable_of (split text)
    else if starts_with (codes "st:") text
    then parse_settlement_callback text
    else if starts_with (codes "cc_pay_pick:") text
    then pay_pick_of (split_at_most 2 text)
    else none
