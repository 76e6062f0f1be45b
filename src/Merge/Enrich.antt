-- ===== src/Merge/Enrich.antt =====
-- `apply_transaction_enrichment` of services/txn_merge.py, with the claim of the source slot
-- (services/email_attachments.py). The rules for categories that it calls at its end are left out.
use financial_dashboard.Prelude.{
  ℕ, Bool, true, false, ◌||◌, Option, none, some, List, [], ◌∷◌, ◌++◌, ◌==◌, if◌then◌else◌,
}
use financial_dashboard.Masks.Chars.{Text}
use financial_dashboard.Linker.Texts.{same_text, starts_with}
use financial_dashboard.Merge.{Channel, sms, email, Fields, Transaction, Incoming}
use financial_dashboard.Merge.Diff.{
  Change, keep, fill, overwrite, EnrichmentDiff, MatchKind, compute_applied_enrichment_diff,
}

-- `setattr`, or nothing.
abbrev pub applied : {A : Type 0} → Option A → Change A → Option A
applied old keep = old
applied old (fill new) = some new
applied old (overwrite before new) = some new

abbrev pub is_change : {A : Type 0} → Change A → Bool
is_change keep = false
is_change (fill new) = true
is_change (overwrite old new) = true

-- `diff.changed_fields` is not empty.
unfoldable pub any_change : EnrichmentDiff → Bool
any_change d =
    is_change d.transaction_date
    || is_change d.transaction_time
    || is_change d.counterparty
    || is_change d.card_mask
    || is_change d.card_holder
    || is_change d.account_mask
    || is_change d.reference_number
    || is_change d.channel
    || is_change d.balance
    || is_change d.raw_description

unfoldable pub apply_diff : Fields → EnrichmentDiff → Fields
apply_diff old d = record {
  transaction_date = applied old.transaction_date d.transaction_date;
  transaction_time = applied old.transaction_time d.transaction_time;
  counterparty = applied old.counterparty d.counterparty;
  card_mask = applied old.card_mask d.card_mask;
  card_holder = applied old.card_holder d.card_holder;
  account_mask = applied old.account_mask d.account_mask;
  reference_number = applied old.reference_number d.reference_number;
  channel = applied old.channel d.channel;
  balance = applied old.balance d.balance;
  raw_description = applied old.raw_description d.raw_description;
}

abbrev pub bank : Text
bank = 98 ∷ 97 ∷ 110 ∷ 107 ∷ []

-- `str(incoming.get("counterparty_source") or "bank")`
unfoldable pub source_or_bank : Option Text → Text
source_or_bank none = bank
source_or_bank (some []) = bank
source_or_bank (some (c ∷ s)) = c ∷ s

-- The name is there, and the row holds it.
unfoldable pub is_stored_name : Option Text → Option Text → Bool
unfolding same_text
is_stored_name none stored = false
is_stored_name (some []) stored = false
is_stored_name (some (c ∷ s)) none = false
is_stored_name (some (c ∷ s)) (some t) = same_text (c ∷ s) t

unfoldable pub sync_counterparty_source : Option Text → Incoming → Option Text → Option Text
unfolding is_stored_name source_or_bank
sync_counterparty_source stored_name incoming stored_source =
    if is_stored_name incoming.fields.counterparty stored_name
    then some (source_or_bank incoming.counterparty_source)
    else stored_source

abbrev pub channel_text : Channel → Text
channel_text sms = 115 ∷ 109 ∷ 115 ∷ []
channel_text email = 101 ∷ 109 ∷ 97 ∷ 105 ∷ 108 ∷ []

abbrev pub screenshot : Text
screenshot = 115 ∷ 99 ∷ 114 ∷ 101 ∷ 101 ∷ 110 ∷ 115 ∷ 104 ∷ 111 ∷ 116 ∷ []

-- `source.split("+")`, the first part and the rest.
unfoldable pub split_plus : Text → Text × List Text
split_plus [] = ([], [])
split_plus (c ∷ s) =
    let (part, rest) = split_plus s in if c == 43 then ([], part ∷ rest) else (c ∷ part, rest)

unfoldable pub is_part : Text → List Text → Bool
unfolding same_text
is_part t [] = false
is_part t (p ∷ ps) = same_text t p || is_part t ps

unfoldable pub merged_source : Option Text → Channel → Option Text
unfolding starts_with split_plus is_part same_text
merged_source none ch = none
merged_source (some s) ch =
    if starts_with screenshot s
    then (if is_part (channel_text ch) ((split_plus s).0 ∷ (split_plus s).1)
        then some s
        else some (s ++ 43 ∷ channel_text ch))
    else if same_text s (channel_text ch)
    then some s
    else some (channel_text sms ++ 43 ∷ channel_text email)

-- `claim_transaction_source_slot`: the row as its object has it, the id that the slot holds in the
-- database, which another source may have filled, and the id that claims it. None is the conflict.
unfoldable pub claim_slot : Option ℕ → Option ℕ → Option ℕ → Option (Option ℕ)
claim_slot current stored none = some current
claim_slot (some owner) stored (some source_id) = some (some owner)
claim_slot none none (some source_id) = some (some source_id)
claim_slot none (some owner) (some source_id) =
    if owner == source_id then some (some source_id) else none

unfoldable pub slot_of : Transaction → Channel → Option ℕ
slot_of t sms = t.sms_message_id
slot_of t email = t.email_id

unfoldable pub with_slot : Channel → Option ℕ → Transaction → Transaction
with_slot sms slot t = record t { sms_message_id = slot }
with_slot email slot t = record t { email_id = slot }

-- The row after the claim.
unfoldable pub enriched : ℕ → Transaction → Incoming → Channel → MatchKind → Transaction
unfolding compute_applied_enrichment_diff apply_diff any_change sync_counterparty_source
    merged_source
enriched now t incoming ch kind =
    let diff = compute_applied_enrichment_diff t incoming ch kind in
    let fields = apply_diff t.fields diff in
    record t {
      fields = fields;
      time_is_received_time =
          if is_change diff.transaction_time
          then incoming.time_is_received_time
          else t.time_is_received_time;
      counterparty_source =
          sync_counterparty_source fields.counterparty incoming t.counterparty_source;
      source = merged_source t.source ch;
      enriched_at = if any_change diff then some now else t.enriched_at;
    }

-- The diff and the row, or the conflict of the slot, before which nothing is written.
unfoldable pub apply_transaction_enrichment :
    ℕ
    → Transaction
    → Option ℕ
    → Incoming
    → Channel
    → Option ℕ
    → MatchKind
    → Option (EnrichmentDiff × Transaction)
unfolding claim_slot slot_of with_slot enriched compute_applied_enrichment_diff
apply_transaction_enrichment now t stored incoming ch source_id kind =
    elim (claim_slot (slot_of t ch) stored source_id) [
      | none ↦ none
      | some slot ↦ some (
        compute_applied_enrichment_diff t incoming ch kind,
        enriched now (with_slot ch slot t) incoming ch kind,
      )
    ]
