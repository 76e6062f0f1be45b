-- ===== src/Merge/Hits.antt =====
-- What the lookups of `find_match` (services/txn_merge.py) by a reference and by the AM/PM retry say
-- of the row that they match.
use financial_dashboard.Prelude.{
  ◌≡◌, ◌≢◌, refl, sym, subst, ap, ◌∙◌, Bool, true, false, ◌&&◌, Bool-cases, ◌⊎◌, inl, inr, Option,
  none, some, List, [], ◌∷◌, ◌==◌, keep_if, In, In-keep_if, if◌then◌else◌, arith,
}
use financial_dashboard.Prelude.Int.{ℤ, pos, negsuc}
use financial_dashboard.Masks.Chars.{Text}
use financial_dashboard.Linker.Texts.{same_text, same_text_sound}
use financial_dashboard.Receivables.Store.{Direction, same_direction}
use financial_dashboard.Merge.{Transaction}
use financial_dashboard.Merge.Diff.{same_balance, is_blank}
use financial_dashboard.Merge.Decide.{same_option}
use financial_dashboard.Merge.Find.{
  Entry, Report, Lookups, has_reference, first_two, balances_differ, decide_hit, decide_alias,
  report_reference, reference_hits,
}
use financial_dashboard.Merge.Certain.{Matches}

-- One balance is unknown, or they are equal.
abbrev pub Agree : Option ℤ → Option ℤ → Type 0
Agree a b = (a ≡ none) ⊎ (b ≡ none) ⊎ (a ≡ b)

same_balance_lem : (a b : ℤ) → same_balance a b ≡ true → a ≡ b
unfolding same_balance
same_balance_lem (pos a) (pos b) h = ap pos (ground (arith, h))
same_balance_lem (pos a) (negsuc b) h = ground arith
same_balance_lem (negsuc a) (pos b) h = ground arith
same_balance_lem (negsuc a) (negsuc b) h = ap negsuc (ground (arith, h))

balances_differ-Agree : (a b : Option ℤ) → balances_differ a b ≡ false → Agree a b
unfolding balances_differ
balances_differ-Agree none b h = inl refl
balances_differ-Agree (some a) none h = inr (inl refl)
balances_differ-Agree (some a) (some b) h =
    inr (inr (ap some (same_balance_lem a b (ground (arith, h)))))

-- The row of an entry, the only one of the message's bank, direction and reference.
pub record IsHit (entries : List Entry) (report : Report) (c : Transaction) : Type 0 where
  pub entry : Entry
  pub is_row : entry.row ≡ c
  pub listed : In entry entries
  pub bank : entry.bank ≡ report.bank
  pub direction : entry.direction ≡ report.direction
  pub reference : c.fields.reference_number ≡ some (report_reference report)
  pub given : report_reference report ≢ []
  pub only : keep_if (has_reference report (report_reference report)) entries ≡ entry ∷ []
  pub amount : entry.amount ≡ report.amount
  pub balance : Agree report.incoming.fields.balance c.fields.balance

-- The row that the AM/PM retry found, where no candidate was gathered.
abbrev pub IsAlias : Report → Lookups → Transaction → Type 0
IsAlias report lookups c =
    (lookups.gathered ≡ [])
    × (lookups.aliased ≡ some c)
    × Agree report.incoming.fields.balance c.fields.balance

decide_hit-match :
    (report : Report) (e : Entry) (c : Transaction)
    → Matches c (decide_hit report e)
    → (e.row ≡ c)
      × (e.amount ≡ report.amount)
      × Agree report.incoming.fields.balance e.row.fields.balance
unfolding decide_hit
decide_hit-match report e c h = elim (Bool-cases (e.amount == report.amount)) [
  | inr other ↦ absurd (ground (arith, other, h))
  | inl same ↦
      elim (Bool-cases (balances_differ report.incoming.fields.balance e.row.fields.balance)) [
        | inl differ ↦ absurd (ground (arith, same, differ, h))
        | inr agree ↦
            (ground (arith, same, agree, h), ground (arith, same), balances_differ-Agree _ _ agree)
      ]
]

pub decide_alias-match :
    (report : Report) (o : Option Transaction) (c : Transaction)
    → Matches c (decide_alias report o)
    → (o ≡ some c) × Agree report.incoming.fields.balance c.fields.balance
unfolding decide_alias
decide_alias-match report none c h = absurd h
decide_alias-match report (some d) c h =
    elim (Bool-cases (balances_differ report.incoming.fields.balance d.fields.balance)) [
      | inl differ ↦ absurd (ground (arith, differ, h))
      | inr agree ↦
          let same : d ≡ c = ground (arith, agree, h) in
          (
            ap some same,
            subst (λ x. Agree report.incoming.fields.balance x.fields.balance) same
                (balances_differ-Agree _ _ agree),
          )
    ]

abbrev is_empty : {A : Type 0} → List A → Bool
is_empty [] = true
is_empty (x ∷ xs) = false

abbrev one_left : List Entry → Bool
one_left [] = true
one_left (e ∷ es) = is_empty es

first_two_lem : (es : List Entry) (e : Entry) → first_two es ≡ e ∷ [] → es ≡ e ∷ []
unfolding first_two
first_two_lem [] e h = h
first_two_lem (d ∷ []) e h = h
first_two_lem (d ∷ f ∷ es) e h = absurd (ground (arith, ap one_left h))

else_branch : (b : Bool) (xs ys : List Entry) → b ≡ false → (if b then [] else xs) ≡ ys → xs ≡ ys
else_branch true xs ys h k = absurd (ground (arith, h))
else_branch false xs ys h k = k

reference_hits-only :
    (report : Report) (entries : List Entry) (e : Entry)
    → reference_hits report entries ≡ e ∷ []
    → (report_reference report ≢ [])
      × (keep_if (has_reference report (report_reference report)) entries ≡ e ∷ [])
unfolding reference_hits is_blank
reference_hits-only report entries e h = elim (Bool-cases (is_blank (report_reference report))) [
  | inl blank ↦ absurd (ground (arith, blank, ap is_empty h))
  | inr given ↦
      (λ k. ground (arith, given, ap is_blank k), first_two_lem _ e (else_branch _ _ _ given h))
]

same_direction_sound : (a b : Direction) → same_direction a b ≡ true → a ≡ b
same_direction_sound a b h = ground (arith, h)

same_option_sound : (o : Option Text) (t : Text) → same_option o (some t) ≡ true → o ≡ some t
unfolding same_option
same_option_sound none t h = ground arith
same_option_sound (some s) t h = ap some (same_text_sound s t h)

all_three : (a b c : Bool) → (a && b && c) ≡ true → (a ≡ true) × (b ≡ true) × (c ≡ true)
all_three a b c h = (ground (arith, h), ground (arith, h), ground (arith, h))

has_reference_lem :
    (report : Report) (ref : Text) (e : Entry)
    → has_reference report ref e ≡ true
    → (e.bank ≡ report.bank)
      × (e.direction ≡ report.direction)
      × (e.row.fields.reference_number ≡ some ref)
unfolding has_reference
has_reference_lem report ref e h =
    let (bank, direction, reference) =
      all_three (same_text e.bank report.bank) (same_direction e.direction report.direction)
        (same_option e.row.fields.reference_number (some ref)) h in
    (
      same_text_sound e.bank report.bank bank,
      same_direction_sound e.direction report.direction direction,
      same_option_sound e.row.fields.reference_number ref reference,
    )

pub matched-IsHit :
    (report : Report) (entries : List Entry) (e : Entry) (c : Transaction)
    → reference_hits report entries ≡ e ∷ []
    → Matches c (decide_hit report e)
    → IsHit entries report c
matched-IsHit report entries e c h m =
    let (given, only) = reference_hits-only report entries e h in
    let (same, amount, agree) = decide_hit-match report e c m in
    let (listed, fits) =
      In-keep_if (has_reference report (report_reference report)) entries e
        (subst (In e) (sym only) (inl refl)) in
    let (bank, direction, reference) = has_reference_lem report (report_reference report) e fits in
    record {
      entry = e;
      is_row = same;
      listed = listed;
      bank = bank;
      direction = direction;
      reference = sym (ap (λ x. x.fields.reference_number) same) ∙ reference;
      given = given;
      only = only;
      amount = amount;
      balance = subst (λ x. Agree report.incoming.fields.balance x.fields.balance) same agree;
    }
