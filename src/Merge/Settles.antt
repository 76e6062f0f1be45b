-- ===== src/Merge/Settles.antt =====
-- Enrichment by the same message again (services/txn_merge.py).
use financial_dashboard.Prelude.{
  ℕ, ◌≡◌, refl, ap, ◌∙◌, Bool, true, false, ◌&&◌, not, Bool-cases, inl, inr, Option, none, some, [],
  ◌∷◌, ◌==◌, ==_iff, ltb, arith,
}
use financial_dashboard.Prelude.Int.{ℤ, pos, negsuc}
use financial_dashboard.Masks.Chars.{Text}
use financial_dashboard.Linker.Texts.{same_text, same_text_sound}
use financial_dashboard.Merge.{Channel, sms, email, Fields, Transaction, Incoming}
use financial_dashboard.Merge.Diff.{
  Change, keep, fill, overwrite, EnrichmentDiff, is_alias, alias_must_not_replace,
  bank_name_replaces_alias, counterparty_downgrade, same_mask, same_balance,
  incoming_time_is_earlier, change, always, never, compute_enrichment_diff, standard,
  compute_applied_enrichment_diff,
}
use financial_dashboard.Merge.Enrich.{
  applied, is_change, any_change, apply_diff, is_stored_name, sync_counterparty_source, enriched,
}

same_text_refl : (s : Text) → same_text s s ≡ true
unfolding same_text
same_text_refl [] = refl
same_text_refl (c ∷ s) = ground (arith, same_text_refl s)

-- A field whose rules say no again where they said no.
change_settles :
    {A : Type 0} (same e s e' s' : A → A → Bool) (ch : Channel) (old new : Option A)
    → ((x : A) → same x x ≡ true)
    → ((o n : A) → e o n ≡ false → e' o n ≡ false)
    → ((o n : A) → s o n ≡ false → s' o n ≡ false)
    → is_change (change same e' s' ch (applied old (change same e s ch old new)) new) ≡ false
change_settles same e s e' s' ch old none r he hs = refl
change_settles same e s e' s' email none (some n) r he hs = rw (r n) refl
change_settles same e s e' s' sms none (some n) r he hs = rw (r n) refl
change_settles same e s e' s' email (some o) (some n) r he hs = elim (Bool-cases (same o n)) [
  | inl f ↦ rw (f, f) refl
  | inr f ↦ elim (Bool-cases (e o n)) [
    | inl g ↦ rw (f, g, r n) refl
    | inr g ↦ rw (f, g, f, he o n g) refl
  ]
]
change_settles same e s e' s' sms (some o) (some n) r he hs = elim (Bool-cases (same o n)) [
  | inl f ↦ rw (f, f) refl
  | inr f ↦ elim (Bool-cases (s o n)) [
    | inl g ↦ rw (f, g, r n) refl
    | inr g ↦ rw (f, g, f, hs o n g) refl
  ]
]

same_mask_refl : (s : Text) → same_mask s s ≡ true
unfolding same_mask
same_mask_refl s = rw (same_text_refl s) refl

same_balance_refl : (b : ℤ) → same_balance b b ≡ true
unfolding same_balance
same_balance_refl (pos a) = (==_iff a a).1 refl
same_balance_refl (negsuc a) = (==_iff a a).1 refl

-- A time that is not earlier by the old date is not earlier by the new one.
time_again :
    (ch : Channel) (old_date new_date : Option ℕ) (o n : ℕ)
    → incoming_time_is_earlier old_date new_date o n ≡ false
    → incoming_time_is_earlier
        (applied old_date
          (change (λ a b. a == b) (λ a b. not (ltb a b)) never ch old_date new_date))
        new_date
        o
        n
      ≡ false
unfolding incoming_time_is_earlier
time_again ch none none o n h = h
time_again sms none (some d) o n h = ground (arith, h)
time_again email none (some d) o n h = ground (arith, h)
time_again ch (some d) none o n h = h
time_again sms (some d) (some e) o n h = elim (Bool-cases (d == e)) [
  | inl f ↦ rw f h
  | inr f ↦ rw f h
]
time_again email (some d) (some e) o n h = elim (Bool-cases (d == e)) [
  | inl f ↦ rw f h
  | inr f ↦ elim (Bool-cases (ltb d e)) [ inl g ↦ rw (f, g) h | inr g ↦ ground (arith, f, g, h) ]
]

not_stored : (o n : Text) → same_text o n ≡ false → is_stored_name (some n) (some o) ≡ false
unfolding is_stored_name
not_stored o [] h = refl
not_stored o (c ∷ n) h = elim (Bool-cases (same_text (c ∷ n) o)) [
  | inl e ↦
      ground (arith, h, same_text_refl o, ap (λ x. same_text o x) (same_text_sound (c ∷ n) o e))
  | inr e ↦ e
]

-- Another name than the row's leaves the source of the row's name.
kept_source :
    (incoming : Incoming) (source : Option Text) (o n : Text)
    → incoming.fields.counterparty ≡ some n
    → same_text o n ≡ false
    → sync_counterparty_source (some o) incoming source ≡ source
unfolding sync_counterparty_source
kept_source incoming source o n h f = rw (h, not_stored o n f) refl

-- The name, whose rules read the source that the enrichment may change with it.
module _ (email_may sms_may : Option Text → Text → Text → Bool) (incoming : Incoming)
    (source : Option Text) where
  abbrev new_name : Channel → Option Text → Option Text → Option Text
  new_name ch old new =
      applied old (change same_text (email_may source) (sms_may source) ch old new)

  abbrev new_source : Channel → Option Text → Option Text → Option Text
  new_source ch old new = sync_counterparty_source (new_name ch old new) incoming source

  name_settles :
      (ch : Channel) (old new : Option Text)
      → incoming.fields.counterparty ≡ new
      → is_change (
          change same_text
            (email_may (new_source ch old new))
            (sms_may (new_source ch old new))
            ch
            (new_name ch old new)
            new)
        ≡ false
  name_settles ch old none h = refl
  name_settles email none (some n) h = rw (same_text_refl n) refl
  name_settles sms none (some n) h = rw (same_text_refl n) refl
  name_settles email (some o) (some n) h = elim (Bool-cases (same_text o n)) [
    | inl f ↦ rw (f, f) refl
    | inr f ↦ elim (Bool-cases (email_may source o n)) [
      | inl g ↦ rw (f, g, same_text_refl n) refl
      | inr g ↦ rw (f, g, kept_source incoming source o n h f, f, g) refl
    ]
  ]
  name_settles sms (some o) (some n) h = elim (Bool-cases (same_text o n)) [
    | inl f ↦ rw (f, f) refl
    | inr f ↦ elim (Bool-cases (sms_may source o n)) [
      | inl g ↦ rw (f, g, same_text_refl n) refl
      | inr g ↦ rw (f, g, kept_source incoming source o n h f, f, g) refl
    ]
  ]

unchanged : {A : Type 0} (old : Option A) (c : Change A) → is_change c ≡ false → applied old c ≡ old
unchanged old keep h = refl
unchanged old (fill new) h = ground arith
unchanged old (overwrite before new) h = ground arith

-- Every field of the diff is left.
record IsEmpty (d : EnrichmentDiff) : Type 0 where
  transaction_date : is_change d.transaction_date ≡ false
  transaction_time : is_change d.transaction_time ≡ false
  counterparty : is_change d.counterparty ≡ false
  card_mask : is_change d.card_mask ≡ false
  card_holder : is_change d.card_holder ≡ false
  account_mask : is_change d.account_mask ≡ false
  reference_number : is_change d.reference_number ≡ false
  channel : is_change d.channel ≡ false
  balance : is_change d.balance ≡ false
  raw_description : is_change d.raw_description ≡ false

IsEmpty-any_change : (d : EnrichmentDiff) → IsEmpty d → any_change d ≡ false
unfolding any_change
IsEmpty-any_change d z = ground (
  arith, z.transaction_date, z.transaction_time, z.counterparty, z.card_mask, z.card_holder,
  z.account_mask, z.reference_number, z.channel, z.balance, z.raw_description,
)

IsEmpty-apply_diff : (f : Fields) (d : EnrichmentDiff) → IsEmpty d → apply_diff f d ≡ f
unfolding apply_diff
IsEmpty-apply_diff f d z =
    rw
      (
        unchanged f.transaction_date d.transaction_date z.transaction_date,
        unchanged f.transaction_time d.transaction_time z.transaction_time,
        unchanged f.counterparty d.counterparty z.counterparty,
        unchanged f.card_mask d.card_mask z.card_mask,
        unchanged f.card_holder d.card_holder z.card_holder,
        unchanged f.account_mask d.account_mask z.account_mask,
        unchanged f.reference_number d.reference_number z.reference_number,
        unchanged f.channel d.channel z.channel,
        unchanged f.balance d.balance z.balance,
        unchanged f.raw_description d.raw_description z.raw_description,
      )
      refl

enriched-IsEmpty :
    (now : ℕ) (t : Transaction) (incoming : Incoming) (ch : Channel)
    → IsEmpty (compute_enrichment_diff (enriched now t incoming ch standard) incoming ch)
unfolding compute_enrichment_diff enriched compute_applied_enrichment_diff apply_diff
    alias_must_not_replace bank_name_replaces_alias
enriched-IsEmpty now t incoming ch =
    let old = t.fields in
    let new = incoming.fields in
    record {
      transaction_date =
          change_settles (λ a b. a == b) (λ a b. not (ltb a b)) never (λ a b. not (ltb a b)) never
            ch old.transaction_date new.transaction_date (λ x. (==_iff x x).1 refl) (λ o n h. h)
            (λ o n h. h);
      transaction_time =
          change_settles (λ a b. a == b) _ never _ never ch old.transaction_time
            new.transaction_time (λ x. (==_iff x x).1 refl)
            (λ o n h. time_again ch old.transaction_date new.transaction_date o n h) (λ o n h. h);
      counterparty =
          name_settles
            (λ source a b.
              not (
                counterparty_downgrade a b
                && not (is_alias source && not (is_alias incoming.counterparty_source)))
              && not (is_alias incoming.counterparty_source && not (is_alias source)))
            (λ source a b. is_alias source && not (is_alias incoming.counterparty_source)) incoming
            t.counterparty_source ch old.counterparty new.counterparty refl;
      card_mask =
          change_settles same_mask _ never _ never ch old.card_mask new.card_mask same_mask_refl
            (λ o n h. h) (λ o n h. h);
      card_holder =
          change_settles same_text always never always never ch old.card_holder new.card_holder
            same_text_refl (λ o n h. h) (λ o n h. h);
      account_mask =
          change_settles same_mask _ never _ never ch old.account_mask new.account_mask
            same_mask_refl (λ o n h. h) (λ o n h. h);
      reference_number =
          change_settles same_text always never always never ch old.reference_number
            new.reference_number same_text_refl (λ o n h. h) (λ o n h. h);
      channel =
          change_settles same_text always never always never ch old.channel new.channel
            same_text_refl (λ o n h. h) (λ o n h. h);
      balance =
          change_settles same_balance always never always never ch old.balance new.balance
            same_balance_refl (λ o n h. h) (λ o n h. h);
      raw_description =
          change_settles same_text _ never _ never ch old.raw_description new.raw_description
            same_text_refl (λ o n h. h) (λ o n h. h);
    }

pub enriched_fields :
    (now : ℕ) (t : Transaction) (incoming : Incoming) (ch : Channel)
    → (enriched now t incoming ch standard).fields
      ≡ apply_diff t.fields (compute_enrichment_diff t incoming ch)
unfolding enriched compute_applied_enrichment_diff
enriched_fields now t incoming ch = refl

enriched_time :
    (now : ℕ) (t : Transaction) (incoming : Incoming) (ch : Channel)
    → any_change (compute_enrichment_diff t incoming ch) ≡ false
    → (enriched now t incoming ch standard).enriched_at ≡ t.enriched_at
unfolding enriched compute_applied_enrichment_diff
enriched_time now t incoming ch h = rw h refl

-- A message that comes again changes nothing: once a row is enriched by a message, the diff of the
-- same message, on the same channel, is empty, so that the second enrichment leaves the fields and
-- does not move the time of the enrichment.
pub enrichment_settles :
    (now later : ℕ) (t : Transaction) (incoming : Incoming) (ch : Channel)
    → (any_change (compute_enrichment_diff (enriched now t incoming ch standard) incoming ch)
        ≡ false)
      × ((enriched later (enriched now t incoming ch standard) incoming ch standard).fields
          ≡ (enriched now t incoming ch standard).fields)
      × ((enriched later (enriched now t incoming ch standard) incoming ch standard).enriched_at
          ≡ (enriched now t incoming ch standard).enriched_at)
enrichment_settles now later t incoming ch =
    let r = enriched now t incoming ch standard in
    let z = enriched-IsEmpty now t incoming ch in
    let none_changes = IsEmpty-any_change _ z in
    (
      none_changes,
      enriched_fields later r incoming ch ∙ IsEmpty-apply_diff r.fields _ z,
      enriched_time later r incoming ch none_changes,
    )
