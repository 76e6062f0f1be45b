-- ===== src/Merge/Decide.antt =====
-- `_decide` of services/txn_merge.py, on the candidates that the queries gathered.
use financial_dashboard.Prelude.{
  ℕ, Bool, true, false, ◌&&◌, ◌||◌, not, Option, none, some, List, [], ◌∷◌, ◌==◌, keep_if, map,
  length, is_some, if◌then◌else◌,
}
use financial_dashboard.Prelude.Int.{ℤ}
use financial_dashboard.Masks.Chars.{Text, is_digit}
use financial_dashboard.Linker.Texts.{same_text, starts_with}
use financial_dashboard.Reconcile.{strip, shortened_reference_match}
use financial_dashboard.Merge.{Channel, Transaction, Incoming}
use financial_dashboard.Merge.Diff.{same_balance, is_blank}
use financial_dashboard.Merge.Enrich.{channel_text, screenshot, slot_of}

pub data DeferralReason : Type 0 where
  reference_amount_mismatch reference_balance_mismatch multiple_reference_candidates :
      DeferralReason
  balance_ambiguous multiple_candidates source_slot_filled source_slot_conflict : DeferralReason

pub data MatchDecision : Type 0 where
  insert : MatchDecision
  matched : Transaction → MatchDecision
  defer : DeferralReason → List ℕ → MatchDecision

unfoldable pub or_blank : Option Text → Text
or_blank none = []
or_blank (some s) = s

unfoldable pub all_digits : Text → Bool
unfolding is_digit
all_digits [] = true
all_digits (c ∷ s) = is_digit c && all_digits s

-- `_UTR.fullmatch`: twelve digits.
unfoldable pub is_utr : Text → Bool
unfolding all_digits
is_utr s = length s == 12 && all_digits s

unfoldable pub is_screenshot : Option Text → Bool
unfolding starts_with
is_screenshot none = false
is_screenshot (some s) = starts_with screenshot s

unfoldable pub is_source_row : Transaction → Channel → Option ℕ → Bool
unfolding slot_of
is_source_row c ch none = false
is_source_row c ch (some source_id) = elim (slot_of c ch) [
  | none ↦ false
  | some id ↦ id == source_id
]

unfoldable pub slot_open : Transaction → Channel → Bool
unfolding slot_of
slot_open c ch = not (is_some (slot_of c ch))

unfoldable pub same_option : Option Text → Option Text → Bool
unfolding same_text
same_option none none = true
same_option none (some t) = false
same_option (some s) none = false
same_option (some s) (some t) = same_text s t

unfoldable pub references_prove_distinct : Text → Option Text → Channel → Transaction → Bool
unfolding or_blank strip is_blank same_option same_text shortened_reference_match
references_prove_distinct incoming_ref incoming_email_type ch c =
    let candidate_ref = strip (or_blank c.fields.reference_number) in
    not (is_blank candidate_ref)
    && not (is_blank incoming_ref)
    && same_option (some c.email_type) incoming_email_type
    && same_option c.source (some (channel_text ch))
    && not (same_text candidate_ref incoming_ref)
    && not (shortened_reference_match (some incoming_ref) (some candidate_ref))

-- The row of a screenshot is kept unless both references are UTRs, and differ.
unfoldable pub passes_utr : Text → Channel → Option ℕ → Transaction → Bool
unfolding is_source_row is_screenshot is_utr or_blank same_text
passes_utr incoming_ref ch source_id c =
    is_source_row c ch source_id
    || not (is_screenshot c.source)
    || not (is_utr incoming_ref)
    || not (is_utr (or_blank c.fields.reference_number))
    || same_option c.fields.reference_number (some incoming_ref)

unfoldable pub passes_reference : Incoming → Text → Channel → Option ℕ → Transaction → Bool
unfolding is_source_row references_prove_distinct
passes_reference incoming incoming_ref ch source_id c =
    is_source_row c ch source_id
    || not (references_prove_distinct incoming_ref incoming.email_type ch c)

-- `c.balance is not None and _quantize_balance(c.balance) == incoming_balance`
unfoldable pub has_balance : ℤ → Transaction → Bool
unfolding same_balance
has_balance b c = elim c.fields.balance [ none ↦ false | some a ↦ same_balance a b ]

unfoldable pub no_balance : Transaction → Bool
no_balance c = not (is_some c.fields.balance)

abbrev pub ids_of : List Transaction → List ℕ
ids_of cs = map (λ (c : Transaction). c.id) cs

-- Step 2: from the candidates of an equal balance, and the ids of those that are left.
unfoldable pub decide_among : List Transaction → List ℕ → MatchDecision
decide_among [] ids = defer balance_ambiguous ids
decide_among (e ∷ []) ids = matched e
decide_among (e ∷ f ∷ es) ids = defer balance_ambiguous ids

unfoldable pub decide_equal : ℤ → List Transaction → MatchDecision
unfolding keep_if has_balance decide_among
decide_equal b [] = insert
decide_equal b (c ∷ cs) = decide_among (keep_if (has_balance b) (c ∷ cs)) (ids_of (c ∷ cs))

unfoldable pub decide_balance : ℤ → List Transaction → MatchDecision
unfolding keep_if has_balance no_balance decide_equal
decide_balance b candidates =
    decide_equal b (keep_if (λ c. no_balance c || has_balance b c) candidates)

-- One candidate: whether it is without a balance and its slot is open. If not, `open_bl` is empty,
-- so that the last reason of the source is not reached.
unfoldable pub decide_one : Bool → Transaction → MatchDecision
decide_one true c = matched c
decide_one false c = defer source_slot_filled (c.id ∷ [])

-- The end of step 3.
unfoldable pub decide_slots : Channel → List Transaction → MatchDecision
unfolding no_balance slot_open decide_one
decide_slots ch [] = insert
decide_slots ch (c ∷ []) = decide_one (no_balance c && slot_open c ch) c
decide_slots ch (c ∷ d ∷ cs) = defer multiple_candidates (ids_of (c ∷ d ∷ cs))

unfoldable pub decide_reference :
    Incoming → Text → Channel → Option ℕ → List Transaction → MatchDecision
unfolding keep_if passes_reference is_blank decide_slots
decide_reference incoming incoming_ref ch source_id candidates =
    if is_blank incoming_ref
    then decide_slots ch candidates
    else decide_slots ch (keep_if (passes_reference incoming incoming_ref ch source_id) candidates)

unfoldable pub decide : List Transaction → Incoming → Channel → Option ℕ → MatchDecision
unfolding keep_if passes_utr strip or_blank decide_balance decide_reference
decide candidates incoming ch source_id =
    let incoming_ref = strip (or_blank incoming.fields.reference_number) in
    let left = keep_if (passes_utr incoming_ref ch source_id) candidates in
    elim incoming.fields.balance [
      | none ↦ decide_reference incoming incoming_ref ch source_id left
      | some b ↦ decide_balance b left
    ]
