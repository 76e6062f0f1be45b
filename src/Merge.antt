-- ===== src/Merge.antt =====
-- The rows of the transaction merge (services/txn_merge.py): a stored transaction and the data of a
-- message that may report it again. A date is a number of days, a time of the day a number of
-- microseconds, a balance a number of minor units. Lower case and `isalnum` are those of ASCII.
pub mod Diff
pub mod Enrich
pub mod Decide
pub mod Certain
pub mod Find
pub mod Hits
pub mod Found
pub mod RuledOut
pub mod Settles
pub mod Precedence
mod Tests
use financial_dashboard.Prelude.{ℕ, Bool, true, false, Option, List}
use financial_dashboard.Prelude.Int.{ℤ}
use financial_dashboard.Masks.Chars.{Text}

pub data Channel : Type 0 where
  sms email : Channel

-- The ten fields of `_ENRICHMENT_FIELDS`.
pub record Fields : Type 0 where
  pub transaction_date : Option ℕ
  pub transaction_time : Option ℕ
  pub counterparty : Option Text
  pub card_mask : Option Text
  pub card_holder : Option Text
  pub account_mask : Option Text
  pub reference_number : Option Text
  pub channel : Option Text
  pub balance : Option ℤ
  pub raw_description : Option Text

-- The columns of a stored row that the merge reads or writes.
pub record Transaction : Type 0 where
  pub id : ℕ
  pub fields : Fields
  pub email_type : Text
  pub source : Option Text
  pub counterparty_source : Option Text
  pub time_is_received_time : Bool
  pub sms_message_id : Option ℕ
  pub email_id : Option ℕ
  pub enriched_at : Option ℕ

-- `txn_data`, in which a missing key and a `None` read the same.
pub record Incoming : Type 0 where
  pub fields : Fields
  pub email_type : Option Text
  pub counterparty_source : Option Text
  pub time_is_received_time : Bool
