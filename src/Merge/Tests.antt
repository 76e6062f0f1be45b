-- ===== src/Merge/Tests.antt =====
-- The transaction merge of services/txn_merge.py on concrete rows.
use financial_dashboard.Prelude.{ℕ, ◌≡◌, refl, true, false, ◌⊎◌, inl, none, some, [], ◌∷◌, In}
use financial_dashboard.Prelude.Int.{pos}
use financial_dashboard.Reconcile.{strip}
use financial_dashboard.Merge.{sms, email, Fields, Transaction, Incoming}
use financial_dashboard.Merge.Diff.{compute_enrichment_diff, standard, user_alias}
use financial_dashboard.Merge.Enrich.{
  any_change, enriched, merged_source, channel_text, screenshot, apply_transaction_enrichment,
}
use financial_dashboard.Merge.Decide.{
  decide, defer, multiple_candidates, reference_amount_mismatch, or_blank, passes_utr,
}
use financial_dashboard.Merge.Certain.{Confirms}
use financial_dashboard.Merge.Find.{Entry, Report, Lookups, find_match}
use financial_dashboard.Merge.Hits.{IsHit, IsAlias}
use financial_dashboard.Merge.Found.{merge_is_confirmed}
use financial_dashboard.Receivables.Store.{debit}
use financial_dashboard.Merge.RuledOut.{Contradicts, insert_rules_out_all}
use financial_dashboard.Merge.Settles.{enrichment_settles}

abbrev blank : Fields
blank = record {
  transaction_date = none;
  transaction_time = none;
  counterparty = none;
  card_mask = none;
  card_holder = none;
  account_mask = none;
  reference_number = none;
  channel = none;
  balance = none;
  raw_description = none;
}

-- An SMS of day 10, at five past, from "AB", with a balance.
abbrev stored : Transaction
stored = record {
  id = 1;
  fields = record blank {
    transaction_date = some 10;
    transaction_time = some 500;
    counterparty = some (65 ∷ 66 ∷ []);
    balance = some (pos 700);
  };
  email_type = [];
  source = some (channel_text sms);
  counterparty_source = some user_alias;
  time_is_received_time = false;
  sms_message_id = some 4;
  email_id = none;
  enriched_at = none;
}

-- An email on the same event, of the day before, which names "AC" and a holder.
abbrev message : Incoming
message = record {
  fields = record blank {
    transaction_date = some 9;
    transaction_time = some 900;
    counterparty = some (65 ∷ 67 ∷ []);
    card_holder = some (72 ∷ []);
    balance = some (pos 700);
  };
  email_type = none;
  counterparty_source = none;
  time_is_received_time = true;
}

-- The stored row has the label of a user and no balance here.
abbrev unbalanced : Transaction
unbalanced = record stored { id = 2; fields = record stored.fields { balance = none } }

-- The reference of the message names one row, with the balance unknown.
abbrev referred : Transaction
referred = record unbalanced {
  fields = record unbalanced.fields { reference_number = some (49 ∷ 50 ∷ []) };
}

abbrev entry : ℕ → Transaction → Entry
entry amount row = record { bank = 66 ∷ []; direction = debit; amount = amount; row = row }

abbrev report : Report
report = record {
  bank = 66 ∷ [];
  direction = debit;
  amount = 900;
  incoming = record message {
    fields = record message.fields { reference_number = some (49 ∷ 50 ∷ []) };
  };
}

abbrev lookups : Lookups
lookups = record { gathered = stored ∷ []; aliased = none; qualifies = λ e. true }

merge_is_confirmed_example :
    IsHit (entry 800 stored ∷ entry 900 referred ∷ []) report referred
    ⊎ (In referred lookups.gathered × Confirms (some (pos 700)) email referred)
    ⊎ IsAlias report lookups referred
unfolding find_match
merge_is_confirmed_example =
    merge_is_confirmed (entry 800 stored ∷ entry 900 referred ∷ []) report email (some 8) lookups
      referred refl

-- The amounts contradict the reference.
refuses_amount :
    find_match (entry 800 referred ∷ []) report email (some 8) lookups
    ≡ defer reference_amount_mismatch []
unfolding find_match
refuses_amount = refl

-- Two rows without a balance are one too many for a message without one.
defers :
    decide
      (unbalanced ∷ record unbalanced { id = 3 } ∷ [])
      (record message { fields = record message.fields { balance = none } })
      email
      (some 8)
    ≡ defer multiple_candidates (2 ∷ 3 ∷ [])
unfolding decide
defers = refl

abbrev other_balance : Incoming
other_balance = record message { fields = record message.fields { balance = some (pos 650) } }

insert_rules_out_all_example :
    (passes_utr (strip (or_blank none)) email (some 8) stored ≡ false)
    ⊎ Contradicts (some (pos 650)) other_balance (strip (or_blank none)) email (some 8) stored
unfolding decide
insert_rules_out_all_example =
    insert_rules_out_all (stored ∷ []) other_balance email (some 8) stored refl (inl refl)

enrichment_settles_example :
    (any_change (compute_enrichment_diff (enriched 50 stored message email standard) message email)
      ≡ false)
    × ((enriched 60 (enriched 50 stored message email standard) message email standard).fields
        ≡ (enriched 50 stored message email standard).fields)
    × ((enriched 60 (enriched 50 stored message email standard) message email standard).enriched_at
        ≡ (enriched 50 stored message email standard).enriched_at)
enrichment_settles_example = enrichment_settles 50 60 stored message email

-- The email changes the row: the day, the time, the name and the holder.
enriches :
    (enriched 50 stored message email standard).fields
    ≡ record message.fields { balance = some (pos 700) }
unfolding enriched
enriches = refl

-- A bank's SMS on a row whose name is no label.
abbrev bank_named : Transaction
bank_named = record stored { counterparty_source = none }

sources :
    (merged_source (some screenshot) email
      ≡ some (
          115 ∷ 99 ∷ 114 ∷ 101 ∷ 101 ∷ 110 ∷ 115 ∷ 104 ∷ 111 ∷ 116 ∷ 43 ∷ 101 ∷ 109 ∷ 97 ∷ 105 ∷ 108
          ∷ []))
    × (merged_source (some (channel_text email)) email ≡ some (channel_text email))
unfolding merged_source
sources = (refl, refl)

-- A slot that another source has taken since is a conflict.
conflict : apply_transaction_enrichment 50 stored (some 9) message email (some 8) standard ≡ none
unfolding apply_transaction_enrichment
conflict = refl
