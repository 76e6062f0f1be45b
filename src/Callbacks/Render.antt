-- ===== src/Callbacks/Render.antt =====
-- The data of the buttons: the prompts of services/telegram.py, of services/receivable_matches.py and
-- of services/reminders.py.
use financial_dashboard.Prelude.{ℕ, ◌∷◌, ◌++◌}
use financial_dashboard.Masks.Chars.{Text}
use financial_dashboard.Callbacks.{
  codes, Button, settle, merge_sms, new_sms, link_receivable, dismiss_receivable, pick_account,
  skip_account, mark_paid,
}
use financial_dashboard.Callbacks.Numbers.{str_of}
use financial_dashboard.Callbacks.Split.{colon}

unfoldable pub settle_data : ℕ → ℕ → Text → ℕ → Text
unfolding str_of
settle_data upload_id stmt_idx digest target =
    codes "st:m:"
    ++ (str_of upload_id ++ colon ∷ (str_of stmt_idx ++ colon ∷ (digest ++ colon ∷ str_of target)))

unfoldable pub merge_data : ℕ → ℕ → Text
unfolding str_of
merge_data sms_id transaction_id =
    codes "smsdup:v1:m:" ++ (str_of sms_id ++ colon ∷ str_of transaction_id)

unfoldable pub new_data : ℕ → Text
unfolding str_of
new_data sms_id = codes "smsdup:v1:n:" ++ str_of sms_id

unfoldable pub link_data : ℕ → ℕ → Text
unfolding str_of
link_data prompt match = codes "rcv:v1:l:" ++ (str_of prompt ++ colon ∷ str_of match)

unfoldable pub dismiss_data : ℕ → Text
unfolding str_of
dismiss_data prompt = codes "rcv:v1:x:" ++ str_of prompt

unfoldable pub pick_data : ℕ → ℕ → Text
unfolding str_of
pick_data txn_id acct_id = codes "cc_pay_pick:" ++ (str_of txn_id ++ colon ∷ str_of acct_id)

unfoldable pub skip_data : ℕ → Text
unfolding str_of
skip_data txn_id = codes "cc_pay_pick:" ++ (str_of txn_id ++ codes ":skip")

unfoldable pub paid_data : ℕ → Text
unfolding str_of
paid_data upload_id = codes "paid:" ++ str_of upload_id

-- The data that a button carries.
unfoldable pub callback_data : Button → Text
unfolding settle_data merge_data new_data link_data dismiss_data pick_data skip_data paid_data
callback_data (settle upload_id stmt_idx digest target) =
    settle_data upload_id stmt_idx digest target
callback_data (merge_sms sms_id transaction_id) = merge_data sms_id transaction_id
callback_data (new_sms sms_id) = new_data sms_id
callback_data (link_receivable prompt match) = link_data prompt match
callback_data (dismiss_receivable prompt) = dismiss_data prompt
callback_data (pick_account txn_id acct_id) = pick_data txn_id acct_id
callback_data (skip_account txn_id) = skip_data txn_id
callback_data (mark_paid upload_id) = paid_data upload_id
