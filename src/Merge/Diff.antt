-- ===== src/Merge/Diff.antt =====
-- `compute_enrichment_diff` and `compute_applied_enrichment_diff` of services/txn_merge.py.
use financial_dashboard.Prelude.{
  ℕ, Bool, true, false, ◌&&◌, ◌||◌, not, Option, none, some, [], ◌∷◌, ◌==◌, ltb, length,
  if◌then◌else◌,
}
use financial_dashboard.Prelude.Int.{ℤ, pos, negsuc}
use financial_dashboard.Masks.Chars.{Text}
use financial_dashboard.Masks.Digits.{mask_digits}
use financial_dashboard.Linker.Texts.{lower, same_text, contains}
use financial_dashboard.Reconcile.{keep_alnum, strip, ends_with}
use financial_dashboard.Merge.{Channel, sms, email, Transaction, Incoming}

-- What the diff says of one field: it is left, filled, or overwritten (the old value, the new one).
pub data Change (A : Type 0) : Type 0 where
  keep : Change A
  fill : A → Change A
  overwrite : A → A → Change A

pub record EnrichmentDiff : Type 0 where
  pub transaction_date : Change ℕ
  pub transaction_time : Change ℕ
  pub counterparty : Change Text
  pub card_mask : Change Text
  pub card_holder : Change Text
  pub account_mask : Change Text
  pub reference_number : Change Text
  pub channel : Change Text
  pub balance : Change ℤ
  pub raw_description : Change Text

abbrev pub user_alias : Text
user_alias = 117 ∷ 115 ∷ 101 ∷ 114 ∷ 95 ∷ 97 ∷ 108 ∷ 105 ∷ 97 ∷ 115 ∷ []

-- `source == "user_alias"`
unfoldable pub is_alias : Option Text → Bool
unfolding same_text
is_alias none = false
is_alias (some s) = same_text s user_alias

unfoldable pub alias_must_not_replace : Transaction → Incoming → Bool
unfolding is_alias
alias_must_not_replace existing incoming =
    is_alias incoming.counterparty_source && not (is_alias existing.counterparty_source)

unfoldable pub bank_name_replaces_alias : Transaction → Incoming → Bool
unfolding is_alias
bank_name_replaces_alias existing incoming =
    is_alias existing.counterparty_source && not (is_alias incoming.counterparty_source)

unfoldable pub is_blank : Text → Bool
is_blank [] = true
is_blank (c ∷ s) = false

-- `"".join(ch for ch in s.lower() if ch.isalnum())`
unfoldable pub normalize_counterparty : Text → Text
unfolding keep_alnum lower
normalize_counterparty s = keep_alnum (lower s)

-- The new text is a proper part of the old one.
unfoldable pub is_proper_part : Text → Text → Bool
unfolding is_blank contains same_text
is_proper_part old new = not (is_blank new) && contains new old && not (same_text new old)

unfoldable pub counterparty_downgrade : Text → Text → Bool
unfolding normalize_counterparty is_proper_part
counterparty_downgrade old new =
    is_proper_part (normalize_counterparty old) (normalize_counterparty new)

unfoldable pub mask_downgrade : Text → Text → Bool
unfolding mask_digits ends_with
mask_downgrade old new =
    let old_digits = mask_digits (some old) in
    let new_digits = mask_digits (some new) in
    ltb (length new_digits) (length old_digits) && ends_with new_digits old_digits

unfoldable pub description_downgrade : Text → Text → Bool
unfolding strip is_proper_part
description_downgrade old new = is_proper_part (strip old) (strip new)

unfoldable pub same_mask : Text → Text → Bool
unfolding same_text mask_digits
same_mask old new = same_text old new || same_text (mask_digits (some old)) (mask_digits (some new))

unfoldable pub same_balance : ℤ → ℤ → Bool
same_balance (pos a) (pos b) = a == b
same_balance (negsuc a) (negsuc b) = a == b
same_balance (pos a) (negsuc b) = false
same_balance (negsuc a) (pos b) = false

-- `(new_date, new_time) < (old_date, old_time)`
abbrev pub is_before : ℕ → ℕ → ℕ → ℕ → Bool
is_before new_date new_time old_date old_time =
    ltb new_date old_date || new_date == old_date && ltb new_time old_time

-- `_incoming_time_is_earlier`: with a date of the row, and the incoming date or else that one.
unfoldable pub incoming_time_is_earlier : Option ℕ → Option ℕ → ℕ → ℕ → Bool
incoming_time_is_earlier none incoming_date old_time new_time = ltb new_time old_time
incoming_time_is_earlier (some d) none old_time new_time = is_before d new_time d old_time
incoming_time_is_earlier (some d) (some e) old_time new_time = is_before e new_time d old_time

-- A value in the place of another: whether they are the same, and whether it may.
abbrev pub replacement : {A : Type 0} → Bool → Bool → A → A → Change A
replacement true may old new = keep
replacement false true old new = overwrite old new
replacement false false old new = keep

-- The rule of a field: whether two values are the same, and whether an email or an SMS may put the
-- second in the place of the first.
abbrev pub change :
    {A : Type 0}
    → (A → A → Bool)
    → (A → A → Bool)
    → (A → A → Bool)
    → Channel
    → Option A
    → Option A
    → Change A
change same by_email by_sms ch old none = keep
change same by_email by_sms ch none (some new) = fill new
change same by_email by_sms email (some old) (some new) =
    replacement (same old new) (by_email old new) old new
change same by_email by_sms sms (some old) (some new) =
    replacement (same old new) (by_sms old new) old new

abbrev pub always : {A : Type 0} → A → A → Bool
always old new = true

abbrev pub never : {A : Type 0} → A → A → Bool
never old new = false

unfoldable pub compute_enrichment_diff : Transaction → Incoming → Channel → EnrichmentDiff
unfolding same_text same_mask same_balance incoming_time_is_earlier counterparty_downgrade
    mask_downgrade description_downgrade alias_must_not_replace bank_name_replaces_alias
compute_enrichment_diff existing incoming ch =
    let old = existing.fields in
    let new = incoming.fields in
    let replaces = bank_name_replaces_alias existing incoming in
    record {
      transaction_date =
          change (λ a b. a == b) (λ a b. not (ltb a b)) never ch old.transaction_date
            new.transaction_date;
      transaction_time =
          change (λ a b. a == b)
            (incoming_time_is_earlier old.transaction_date new.transaction_date) never ch
            old.transaction_time new.transaction_time;
      counterparty =
          change same_text
            (λ a b.
              not (counterparty_downgrade a b && not replaces)
              && not (alias_must_not_replace existing incoming))
            (λ a b. replaces) ch old.counterparty new.counterparty;
      card_mask =
          change same_mask (λ a b. not (mask_downgrade a b)) never ch old.card_mask new.card_mask;
      card_holder = change same_text always never ch old.card_holder new.card_holder;
      account_mask =
          change same_mask (λ a b. not (mask_downgrade a b)) never ch old.account_mask
            new.account_mask;
      reference_number = change same_text always never ch old.reference_number new.reference_number;
      channel = change same_text always never ch old.channel new.channel;
      balance = change same_balance always never ch old.balance new.balance;
      raw_description =
          change same_text (λ a b. not (description_downgrade a b)) never ch old.raw_description
            new.raw_description;
    }

pub data MatchKind : Type 0 where
  standard am_pm_alias ref_amount_mismatch : MatchKind

-- The time of an alias match, where the stored one differs; a stored time that is missing is
-- overwritten too.
unfoldable pub alias_time : Option ℕ → Option ℕ → Change ℕ → Change ℕ
alias_time old none c = c
alias_time none (some new) c = fill new
alias_time (some old) (some new) c = if old == new then c else overwrite old new

unfoldable pub compute_applied_enrichment_diff :
    Transaction → Incoming → Channel → MatchKind → EnrichmentDiff
unfolding compute_enrichment_diff alias_time
compute_applied_enrichment_diff existing incoming ch standard =
    compute_enrichment_diff existing incoming ch
compute_applied_enrichment_diff existing incoming ch ref_amount_mismatch =
    compute_enrichment_diff existing incoming ch
compute_applied_enrichment_diff existing incoming ch am_pm_alias =
    let diff = compute_enrichment_diff existing incoming ch in
    record diff {
      transaction_time =
          alias_time existing.fields.transaction_time incoming.fields.transaction_time
            diff.transaction_time;
    }
