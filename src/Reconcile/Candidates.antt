-- ===== src/Reconcile/Candidates.antt =====
-- Which pairs `_duplicate_candidates` (services/reconcile.py) lists.
use financial_dashboard.Prelude.{
  ℕ, ◌+◌, ◌≤◌, ◌≡◌, ◌≢◌, refl, sym, subst, ap, ◌∙◌, ◌↔◌, Bool, true, false, ◌&&◌, not, Bool-cases,
  ◌⊎◌, inl, inr, Option, none, some, str_eq, eq_iff, ◌==◌, List, [], ◌∷◌, ◌++◌, map, In, In-keep_if,
  keep_if-In, arith,
}
use financial_dashboard.Masks.Chars.{Text}
use financial_dashboard.Linker.Texts.{same_text, same_text_sound, same_text_refl}
use financial_dashboard.Receivables.Store.{Direction, same_direction}
use financial_dashboard.Reconcile.{
  Row, normalized_currency, same_account, in_range, distinct_references,
}
use financial_dashboard.Reconcile.Pairs.{is_earlier, insert_row, sort_rows}
use financial_dashboard.Reconcile.Duplicates.{
  is_statement_row, same_key, alerts_of, is_candidate, candidates_of, candidates_in,
  duplicate_candidates,
}
use financial_dashboard.Reconcile.Paired.{and_parts, negation_lem}

-- Sorting keeps the rows.
insert_row-In : (a r : Row) (rows : List Row) → In r (insert_row a rows) ↔ In r (a ∷ rows)
unfolding insert_row
insert_row-In a r [] = (λ i. i, λ i. i)
insert_row-In a r (b ∷ bs) =
    let rec = insert_row-In a r bs in
    elim (Bool-cases (is_earlier a b)) [
      | inl e ↦ rw e (λ i. i, λ i. i)
      | inr e ↦ rw e (
        λ i. elim i [
          | inl f ↦ inr (inl f)
          | inr j ↦ elim (rec.0 j) [ inl f ↦ inl f | inr k ↦ inr (inr k) ]
        ],
        λ i. elim i [
          | inl f ↦ inr (rec.1 (inl f))
          | inr j ↦ elim j [ inl f ↦ inl f | inr k ↦ inr (rec.1 (inr k)) ]
        ],
      )
    ]

sort_rows-In : (r : Row) (rows : List Row) → In r (sort_rows rows) ↔ In r rows
unfolding sort_rows
sort_rows-In r [] = (λ i. i, λ i. i)
sort_rows-In r (a ∷ rows) =
    let put = insert_row-In a r (sort_rows rows) in
    let rec = sort_rows-In r rows in
    (
      λ i. elim (put.0 i) [ inl e ↦ inl e | inr j ↦ inr (rec.0 j) ],
      λ i. elim i [ inl e ↦ put.1 (inl e) | inr j ↦ put.1 (inr (rec.1 j)) ],
    )

-- The row may be the statement row's event a second time.
pub record IsAlert (date_from date_to : ℕ) (rows : List Row) (stmt alert : Row) : Type 0 where
  pub listed : In alert rows
  pub other_source : alert.read.email_type ≢ "bank_statement"
  pub account : alert.read.account_id ≡ stmt.read.account_id
  pub direction : alert.read.direction ≡ stmt.read.direction
  pub currency : normalized_currency alert.read.currency ≡ normalized_currency stmt.read.currency
  pub amount : alert.read.amount ≡ stmt.read.amount
  pub after : stmt.day ≤ alert.day + 3
  pub before : alert.day ≤ stmt.day + 3
  pub range :
      (date_from ≤ stmt.day × stmt.day ≤ date_to) ⊎ (date_from ≤ alert.day × alert.day ≤ date_to)
  pub references :
      distinct_references stmt.read.reference_number alert.read.reference_number ≡ false

same_account_lem : (a b : Option ℕ) → (same_account a b ≡ true) ↔ (a ≡ b)
unfolding same_account
same_account_lem none none = (λ h. refl, λ h. refl)
same_account_lem none (some b) = (λ h. ground arith, λ h. ground (arith, h))
same_account_lem (some a) none = (λ h. ground arith, λ h. ground (arith, h))
same_account_lem (some a) (some b) = (λ h. ground (arith, h), λ h. ground (arith, h))

same_direction_lem : (a b : Direction) → (same_direction a b ≡ true) ↔ (a ≡ b)
same_direction_lem a b = (λ h. ground (arith, h), λ h. ground (arith, h))

same_text_lem : (s t : Text) → (same_text s t ≡ true) ↔ (s ≡ t)
same_text_lem s t =
    (same_text_sound s t, λ e. subst (λ u. same_text s u ≡ true) e (same_text_refl s))

all_four :
    (a b c d : Bool)
    → ((a && b && c && d) ≡ true) ↔ ((a ≡ true) × (b ≡ true) × (c ≡ true) × (d ≡ true))
all_four a b c d = (
  λ h. (ground (arith, h), ground (arith, h), ground (arith, h), ground (arith, h)),
  λ (h, k, l, m). ground (arith, h, k, l, m),
)

other_source_lem : (r : Row) → (is_statement_row r ≡ false) ↔ (r.read.email_type ≢ "bank_statement")
unfolding is_statement_row
other_source_lem r = (
  λ h e. ground (arith, h, eq_iff r.read.email_type "bank_statement"),
  λ n. elim (Bool-cases (str_eq r.read.email_type "bank_statement")) [
    | inl e ↦ absurd (n ((eq_iff r.read.email_type "bank_statement").0 e))
    | inr e ↦ e
  ],
)

-- What the tests of a pair say, one by one.
module _ (date_from date_to : ℕ) (rows : List Row) (stmt alert : Row) where
  key_lem : (same_key alert stmt ≡ true) ↔ (
      (same_account alert.read.account_id stmt.read.account_id ≡ true)
      × (same_direction alert.read.direction stmt.read.direction ≡ true)
      × (same_text
            (normalized_currency alert.read.currency)
            (normalized_currency stmt.read.currency)
          ≡ true)
      × ((alert.read.amount == stmt.read.amount) ≡ true))
  unfolding same_key
  key_lem =
      all_four (same_account alert.read.account_id stmt.read.account_id)
        (same_direction alert.read.direction stmt.read.direction)
        (same_text (normalized_currency alert.read.currency)
          (normalized_currency stmt.read.currency))
        (alert.read.amount == stmt.read.amount)

  IsAlert-same_key :
      IsAlert date_from date_to rows stmt alert
      → (same_key alert stmt ≡ true) × (is_candidate date_from date_to stmt alert ≡ true)
  unfolding is_candidate in_range
  IsAlert-same_key c = (
    key_lem.1 (
      (same_account_lem _ _).1 c.account,
      (same_direction_lem _ _).1 c.direction,
      (same_text_lem _ _).1 c.currency,
      ground (arith, c.amount),
    ),
    ground (arith, c.after, c.before, c.range, c.references),
  )

  same_key-IsAlert :
      In alert rows
      → is_statement_row alert ≡ false
      → same_key alert stmt ≡ true
      → is_candidate date_from date_to stmt alert ≡ true
      → IsAlert date_from date_to rows stmt alert
  unfolding is_candidate in_range
  same_key-IsAlert i other key near =
      let (account, direction, currency, amount) = key_lem.0 key in
      record {
        listed = i;
        other_source = (other_source_lem alert).0 other;
        account = (same_account_lem _ _).0 account;
        direction = (same_direction_lem _ _).0 direction;
        currency = (same_text_lem _ _).0 currency;
        amount = ground (arith, amount);
        after = ground (arith, near);
        before = ground (arith, near);
        range = ground (arith, near);
        references = ground (arith, near);
      }

In-append : {A : Type 0} (x : A) (xs ys : List A) → In x (xs ++ ys) ↔ (In x xs ⊎ In x ys)
In-append x [] ys = (λ i. inr i, λ i. elim i [ inl e ↦ absurd e | inr j ↦ j ])
In-append x (y ∷ xs) ys =
    let rec = In-append x xs ys in
    (
      λ i. elim i [
        | inl e ↦ inl (inl e)
        | inr j ↦ elim (rec.0 j) [ inl k ↦ inl (inr k) | inr k ↦ inr k ]
      ],
      λ i. elim i [
        | inl j ↦ elim j [ inl e ↦ inl e | inr k ↦ inr (rec.1 (inl k)) ]
        | inr k ↦ inr (rec.1 (inr k))
      ],
    )

In-map :
    (s t a : Row) (xs : List Row)
    → In {A = Row × Row} (s, a) (map (λ (x : Row). (t, x)) xs) ↔ ((s ≡ t) × In a xs)
In-map s t a [] = (λ i. absurd i, λ i. absurd i.1)
In-map s t a (x ∷ xs) =
    let rec = In-map s t a xs in
    (
      λ i. elim i [
        | inl e ↦ (ap (λ p. p.0) e, inl (ap (λ p. p.1) e))
        | inr j ↦ ((rec.0 j).0, inr (rec.0 j).1)
      ],
      λ (e, i). elim i [
        | inl f ↦ inl (ap (λ y. (y, a)) e ∙ ap (λ y. (t, y)) f)
        | inr j ↦ inr (rec.1 (e, j))
      ],
    )

module _ (date_from date_to : ℕ) (rows : List Row) where
  candidates_of_lem :
      (t s a : Row)
      → In {A = Row × Row} (s, a) (candidates_of date_from date_to rows t)
        ↔ ((s ≡ t) × IsAlert date_from date_to rows t a)
  unfolding candidates_of alerts_of
  candidates_of_lem t s a = (
    λ i.
        let found = (In-map s t a _).0 i in
        let near = In-keep_if _ _ a found.1 in
        let alert = In-keep_if _ rows a near.0 in
        let both = and_parts _ _ alert.1 in
        (
          found.0,
          same_key-IsAlert date_from date_to rows t a alert.0 (negation_lem _ both.0) both.1 near.1,
        ),
    λ (e, c).
        let tests = IsAlert-same_key date_from date_to rows t a c in
        (In-map s t a _).1 (
          e,
          keep_if-In (is_candidate date_from date_to t) _ a
              (keep_if-In (λ r. not (is_statement_row r) && same_key r t) rows a c.listed
                (rw ((other_source_lem a).1 c.other_source, tests.0) refl))
              tests.1,
        ),
  )

  candidates_in_lem :
      (todo : List Row) (s a : Row)
      → In {A = Row × Row} (s, a) (candidates_in date_from date_to rows todo)
        ↔ (In s todo × (is_statement_row s ≡ true) × IsAlert date_from date_to rows s a)
  unfolding candidates_in
  candidates_in_lem [] s a = (λ i. absurd i, λ i. absurd i.0)
  candidates_in_lem (t ∷ todo) s a =
      let rec = candidates_in_lem todo s a in
      let here = candidates_of_lem t s a in
      let both =
        In-append {A = Row × Row} (s, a) (candidates_of date_from date_to rows t)
          (candidates_in date_from date_to rows todo) in
      elim (Bool-cases (is_statement_row t)) [
        | inl stmt ↦ rw stmt (
          λ i. elim (both.0 i) [
            | inl j ↦ (
              inl (here.0 j).0,
              subst (λ x. is_statement_row x ≡ true) (sym (here.0 j).0) stmt,
              subst (λ x. IsAlert date_from date_to rows x a) (sym (here.0 j).0) (here.0 j).1,
            )
            | inr j ↦ (inr (rec.0 j).0, (rec.0 j).1, (rec.0 j).2)
          ],
          λ (i, h, c). elim i [
            | inl e ↦ both.1 (inl (here.1 (e, subst (λ x. IsAlert date_from date_to rows x a) e c)))
            | inr j ↦ both.1 (inr (rec.1 (j, h, c)))
          ],
        )
        | inr other ↦ rw other (
          λ i. (inr (rec.0 i).0, (rec.0 i).1, (rec.0 i).2),
          λ (i, h, c). elim i [
            | inl e ↦ ground (arith, h, other, ap is_statement_row e)
            | inr j ↦ rec.1 (j, h, c)
          ],
        )
      ]

-- The report lists exactly the pairs of a statement row and a row of another source, both given,
-- that have the same account, the same direction, the same normalized currency and the same amount,
-- whose dates are at most three days apart, of which at least one lies in the range, both ends
-- included, and whose references are not distinct.
pub candidates_lem :
    (date_from date_to : ℕ) (rows : List Row) (stmt alert : Row)
    → In {A = Row × Row} (stmt, alert) (duplicate_candidates date_from date_to rows)
      ↔ (In stmt rows × (is_statement_row stmt ≡ true) × IsAlert date_from date_to rows stmt alert)
unfolding duplicate_candidates
candidates_lem date_from date_to rows stmt alert =
    let all = candidates_in_lem date_from date_to rows (sort_rows rows) stmt alert in
    let sorted = sort_rows-In stmt rows in
    (λ i. (sorted.0 (all.0 i).0, (all.0 i).1, (all.0 i).2), λ (i, h, c). all.1 (sorted.1 i, h, c))
