-- ===== src/Merge/Precedence.antt =====
-- Which of two messages' values a row keeps (services/txn_merge.py).
use financial_dashboard.Prelude.{
  ℕ, ◌≡◌, refl, ◌∙◌, Bool, false, not, Bool-cases, inl, inr, Option, none, some, ◌==◌, ltb, arith,
  if◌then◌else◌,
}
use financial_dashboard.Merge.{sms, email, Fields, Transaction, Incoming}
use financial_dashboard.Merge.Diff.{
  bank_name_replaces_alias, incoming_time_is_earlier, is_before, change, never,
  compute_enrichment_diff, compute_applied_enrichment_diff, standard, replacement,
}
use financial_dashboard.Merge.Enrich.{applied, apply_diff, enriched}
use financial_dashboard.Merge.Settles.{enriched_fields}

-- The first value that is there.
abbrev pub or_else : {A : Type 0} → Option A → Option A → Option A
or_else none b = b
or_else (some a) b = some a

abbrev pub gaps_filled : Fields → Fields → Fields
gaps_filled old new = record {
  transaction_date = or_else old.transaction_date new.transaction_date;
  transaction_time = or_else old.transaction_time new.transaction_time;
  counterparty = or_else old.counterparty new.counterparty;
  card_mask = or_else old.card_mask new.card_mask;
  card_holder = or_else old.card_holder new.card_holder;
  account_mask = or_else old.account_mask new.account_mask;
  reference_number = or_else old.reference_number new.reference_number;
  channel = or_else old.channel new.channel;
  balance = or_else old.balance new.balance;
  raw_description = or_else old.raw_description new.raw_description;
}

sms_change :
    {A : Type 0} (same by_email by_sms : A → A → Bool) (old new : Option A)
    → ((o n : A) → by_sms o n ≡ false)
    → applied old (change same by_email by_sms sms old new) ≡ or_else old new
sms_change same by_email by_sms none none h = refl
sms_change same by_email by_sms (some o) none h = refl
sms_change same by_email by_sms none (some n) h = refl
sms_change same by_email by_sms (some o) (some n) h = elim (Bool-cases (same o n)) [
  | inl e ↦ rw (e) refl
  | inr e ↦ rw (e, h o n) refl
]

-- An SMS fills the gaps of a row and overwrites nothing: each field keeps its value if it has one,
-- and else takes the message's, provided that the message's name does not replace a label of the
-- user.
pub sms_fills_gaps :
    (now : ℕ) (t : Transaction) (incoming : Incoming)
    → bank_name_replaces_alias t incoming ≡ false
    → (enriched now t incoming sms standard).fields ≡ gaps_filled t.fields incoming.fields
unfolding apply_diff compute_enrichment_diff
sms_fills_gaps now t incoming h =
    let old = t.fields in
    let new = incoming.fields in
    enriched_fields now t incoming sms
    ∙ rw
        (
          sms_change (λ a b. a == b) _ never old.transaction_date new.transaction_date
              (λ o n. refl),
          sms_change _ _ never old.transaction_time new.transaction_time (λ o n. refl),
          sms_change _ _ _ old.counterparty new.counterparty (λ o n. h),
          sms_change _ _ never old.card_mask new.card_mask (λ o n. refl),
          sms_change _ _ never old.card_holder new.card_holder (λ o n. refl),
          sms_change _ _ never old.account_mask new.account_mask (λ o n. refl),
          sms_change _ _ never old.reference_number new.reference_number (λ o n. refl),
          sms_change _ _ never old.channel new.channel (λ o n. refl),
          sms_change _ _ never old.balance new.balance (λ o n. refl),
          sms_change _ _ never old.raw_description new.raw_description (λ o n. refl),
        )
        refl

earlier_date :
    (d o e n : ℕ)
    → applied (some d) (replacement (d == e) (not (ltb d e)) d e)
      ≡ some (if is_before e n d o then e else d)
earlier_date d o e n = elim (Bool-cases (d == e)) [
  | inl f ↦ rw f (ground (arith, f))
  | inr f ↦ elim (Bool-cases (ltb d e)) [
    | inl g ↦ rw (f, g) (ground (arith, f, g))
    | inr g ↦ rw (f, g) (ground (arith, f, g))
  ]
]

earlier_time :
    (d o e n : ℕ)
    → applied (some o) (replacement (o == n) (is_before e n d o) o n)
      ≡ some (if is_before e n d o then n else o)
earlier_time d o e n = elim (Bool-cases (o == n)) [
  | inl f ↦ rw f (ground (arith, f))
  | inr f ↦ elim (Bool-cases (is_before e n d o)) [
    | inl g ↦ rw (f, g) refl
    | inr g ↦ rw (f, g) refl
  ]
]

-- An email keeps the earlier instant: where the row and the message both have a date and a time, the
-- row gets the message's if that instant is the earlier one, and keeps its own if not.
pub email_keeps_earliest :
    (now : ℕ) (t : Transaction) (incoming : Incoming) (d o e n : ℕ)
    → t.fields.transaction_date ≡ some d
    → t.fields.transaction_time ≡ some o
    → incoming.fields.transaction_date ≡ some e
    → incoming.fields.transaction_time ≡ some n
    → ((enriched now t incoming email standard).fields.transaction_date
        ≡ some (if is_before e n d o then e else d))
      × ((enriched now t incoming email standard).fields.transaction_time
          ≡ some (if is_before e n d o then n else o))
unfolding enriched apply_diff compute_enrichment_diff compute_applied_enrichment_diff
    incoming_time_is_earlier
email_keeps_earliest now t incoming d o e n hd ho he hn =
    rw (hd, ho, he, hn) (earlier_date d o e n, earlier_time d o e n)
