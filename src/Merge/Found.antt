-- ===== src/Merge/Found.antt =====
-- What every merge that `find_match` (services/txn_merge.py) decides rests on.
use financial_dashboard.Prelude.{
  ℕ, ◌≡◌, refl, subst, ◌&&◌, Bool-cases, ◌⊎◌, inl, inr, Option, some, List, [], ◌∷◌, In, is_some,
  if◌then◌else◌,
}
use financial_dashboard.Merge.{Channel, Transaction}
use financial_dashboard.Merge.Decide.{insert, matched}
use financial_dashboard.Merge.Find.{
  Entry, Report, Lookups, decide_hit, decide_alias, find_gathered, find_by_hits, reference_hits,
  find_match,
}
use financial_dashboard.Merge.Certain.{to_matches, Confirms, match_is_confirmed}
use financial_dashboard.Merge.Hits.{Agree, IsHit, IsAlias, decide_alias-match, matched-IsHit}

-- What a merge rests on.
abbrev pub Rests : List Entry → Report → Channel → Lookups → Transaction → Type 0
Rests entries report ch lookups c =
    IsHit entries report c
    ⊎ (In c lookups.gathered × Confirms report.incoming.fields.balance ch c)
    ⊎ IsAlias report lookups c

gathered-Rests :
    (report : Report) (ch : Channel) (source_id : Option ℕ) (o : Option Transaction)
    (cs : List Transaction) (c : Transaction)
    → find_gathered report ch source_id o cs ≡ matched c
    → (In c cs × Confirms report.incoming.fields.balance ch c)
      ⊎ (cs ≡ []) × (o ≡ some c) × Agree report.incoming.fields.balance c.fields.balance
unfolding find_gathered
gathered-Rests report ch source_id o (d ∷ cs) c h =
    inl (match_is_confirmed (d ∷ cs) report.incoming ch source_id c h)
gathered-Rests report ch source_id o [] c h =
    elim (Bool-cases (
      is_some report.incoming.fields.transaction_date
      && is_some report.incoming.fields.transaction_time)) [
        | inl timed ↦ inr (
            let (found, agree) = decide_alias-match report o c (
              to_matches c (decide_alias report o)
                (subst (λ b. (if b then decide_alias report o else insert) ≡ matched c) timed h)) in
            (refl, found, agree))
        | inr untimed ↦ absurd (
            to_matches c insert
              (subst (λ b. (if b then decide_alias report o else insert) ≡ matched c) untimed h))
      ]

find_by_hits-Rests :
    (entries : List Entry) (report : Report) (ch : Channel) (source_id : Option ℕ)
    (lookups : Lookups) (c : Transaction) (hits : List Entry)
    → reference_hits report entries ≡ hits
    → find_by_hits report ch source_id lookups hits ≡ matched c
    → Rests entries report ch lookups c
unfolding find_by_hits
find_by_hits-Rests entries report ch source_id lookups c [] e h =
    inr (gathered-Rests report ch source_id lookups.aliased lookups.gathered c h)
find_by_hits-Rests entries report ch source_id lookups c (d ∷ []) e h =
    inl (matched-IsHit report entries d c e (to_matches c (decide_hit report d) h))
find_by_hits-Rests entries report ch source_id lookups c (d ∷ f ∷ es) e h =
    absurd (to_matches c (find_by_hits report ch source_id lookups (d ∷ f ∷ es)) h)

-- A message is merged into a row only on evidence, of one of three kinds. By its reference, which is
-- not empty: the row is the only stored one of the message's bank, direction and reference, its
-- amount is the message's, and their balances are equal, or one of them is unknown. By the gathered
-- candidates: the row is one of them, and either both state the same balance, or neither states one
-- and the row's slot for the channel is open. Or by the AM/PM retry, where no candidate was gathered:
-- the row is the one that the retry found, and their balances are equal, or one of them is unknown.
-- What is gathered, and what the retry finds, are arguments.
pub merge_is_confirmed :
    (entries : List Entry) (report : Report) (ch : Channel) (source_id : Option ℕ)
    (lookups : Lookups) (c : Transaction)
    → find_match entries report ch source_id lookups ≡ matched c
    → IsHit entries report c
      ⊎ (In c lookups.gathered × Confirms report.incoming.fields.balance ch c)
      ⊎ IsAlias report lookups c
unfolding find_match
merge_is_confirmed entries report ch source_id lookups c h =
    find_by_hits-Rests entries report ch source_id lookups c (reference_hits report entries) refl h
