-- ===== src/Categories/Internal.antt =====
-- The internal rows of the cashflow report (services/cashflow/buckets.py).
use financial_dashboard.Prelude.{
  ◌≡◌, refl, sym, ap, ◌∙◌, subst, Bool, true, false, ◌&&◌, ◌||◌, Option, none, some, String, [],
  ◌∷◌, str_eq, eq_iff, Bool-cases, inl, inr, arith, if◌then◌else◌,
}
use financial_dashboard.Categories.Slugs.{
  slug_in, UserSlugs, unknown_slug, repayment_slug, credit_card_payment_slug,
}
use financial_dashboard.Categories.Buckets.{
  Scope, bank, card, unaccounted, Bucket, income, expense, internal, uncategorized, is_bank,
  internal_slugs, in_income_bucket, in_expense_bucket, bucket_by_slug, last_entry, placed,
  is_credit, user_bucket, or_bucket, bucket_of, bucket_for_slug, internal_slugs_for_scope,
}

abbrev pub is_internal : Bucket → Bool
is_internal internal = true
is_internal _ = false

or_drop :
    (a b c d : Bool)
    → (a || (b || (c || (d || false)))) ≡ false
    → (a || (b || (c || false))) ≡ false
or_drop a b c d h = ground (arith, h)

or_none :
    (a b c d : Bool)
    → a ≡ false
    → b ≡ false
    → c ≡ false
    → d ≡ false
    → (a || (b || (c || (d || false)))) ≡ false
or_none a b c d e f g h = ground (arith, e, f, g, h)

unlisted :
    (slug : String)
    → str_eq slug "self_transfer" ≡ false
    → str_eq slug "passthrough" ≡ false
    → str_eq slug "personal_loan" ≡ false
    → str_eq slug "credit_card_payment" ≡ false
    → slug_in slug internal_slugs ≡ false
unfolding slug_in
unlisted slug =
    or_none (str_eq slug "self_transfer") (str_eq slug "passthrough") (str_eq slug "personal_loan")
      (str_eq slug "credit_card_payment")

placed_not_internal :
    (m b g : Bool) (rest : Bucket)
    → is_internal rest ≡ false
    → is_internal (placed m b g rest) ≡ false
placed_not_internal m b g rest h = ground (arith, h)

-- Of an optional bucket.
abbrev maybe_internal : Option Bucket → Bool
maybe_internal none = false
maybe_internal (some b) = is_internal b

or_not_internal :
    (o : Option Bucket) (b : Bucket)
    → maybe_internal o ≡ false
    → is_internal b ≡ false
    → is_internal (or_bucket o b) ≡ false
or_not_internal o b h k = ground (arith, h, k)

last_entry_not_internal : (a b c d e : Bool) → maybe_internal (last_entry a b false c d e) ≡ false
last_entry_not_internal a b c d e = ground arith

map_not_internal :
    (slug : String)
    → slug_in slug internal_slugs ≡ false
    → maybe_internal (bucket_by_slug slug) ≡ false
unfolding bucket_by_slug
map_not_internal slug h =
    ap
      (λ i. maybe_internal (
        last_entry (str_eq slug "family") (str_eq slug repayment_slug) i
          (slug_in slug ("investment" ∷ "investment_redemption" ∷ [])) (in_expense_bucket slug)
          (in_income_bucket slug)))
      h
    ∙ last_entry_not_internal (str_eq slug "family") (str_eq slug repayment_slug)
        (slug_in slug ("investment" ∷ "investment_redemption" ∷ [])) (in_expense_bucket slug)
        (in_income_bucket slug)

user_not_internal :
    (a b : Bool)
    → is_internal (if a then expense else (if b then income else uncategorized)) ≡ false
user_not_internal a b = ground arith

-- A slug of the filter, at each of its members.
module _ (users : UserSlugs) (direction : Option String) where
  abbrev Agrees : Option Scope → String → Type 0
  Agrees scope slug =
      slug_in slug (internal_slugs_for_scope scope)
      ≡ is_internal (bucket_of users slug scope direction)

  self_transfer_agrees : (scope : Option Scope) → Agrees scope "self_transfer"
  unfolding internal_slugs_for_scope bucket_of slug_in
  self_transfer_agrees none = refl
  self_transfer_agrees (some bank) = refl
  self_transfer_agrees (some card) = refl
  self_transfer_agrees (some unaccounted) = refl

  passthrough_agrees : (scope : Option Scope) → Agrees scope "passthrough"
  unfolding internal_slugs_for_scope bucket_of slug_in
  passthrough_agrees none = refl
  passthrough_agrees (some bank) = refl
  passthrough_agrees (some card) = refl
  passthrough_agrees (some unaccounted) = refl

  personal_loan_agrees : (scope : Option Scope) → Agrees scope "personal_loan"
  unfolding internal_slugs_for_scope bucket_of slug_in
  personal_loan_agrees none = refl
  personal_loan_agrees (some bank) = refl
  personal_loan_agrees (some card) = refl
  personal_loan_agrees (some unaccounted) = refl

  card_payment_agrees : (scope : Option Scope) → Agrees scope "credit_card_payment"
  unfolding internal_slugs_for_scope bucket_of slug_in
  card_payment_agrees none = refl
  card_payment_agrees (some bank) = refl
  card_payment_agrees (some card) = refl
  card_payment_agrees (some unaccounted) = refl

  by_name :
      (scope : Option Scope) (slug name : String)
      → str_eq slug name ≡ true
      → Agrees scope name
      → Agrees scope slug
  by_name scope slug name e h = subst (Agrees scope) (sym ((eq_iff slug name).0 e)) h

  not_listed :
      (scope : Option Scope) (slug : String)
      → slug_in slug internal_slugs ≡ false
      → slug_in slug (internal_slugs_for_scope scope) ≡ false
  unfolding internal_slugs_for_scope slug_in
  not_listed none slug h = h
  not_listed (some bank) slug h =
      or_drop (str_eq slug "self_transfer") (str_eq slug "passthrough")
        (str_eq slug "personal_loan") (str_eq slug "credit_card_payment") h
  not_listed (some card) slug h = h
  not_listed (some unaccounted) slug h = h

  not_internal :
      (scope : Option Scope) (slug : String)
      → slug_in slug internal_slugs ≡ false
      → is_internal (bucket_of users slug scope direction) ≡ false
  unfolding bucket_of
  not_internal scope slug h =
      placed_not_internal (str_eq slug "" || str_eq slug unknown_slug)
        (is_bank scope && str_eq slug credit_card_payment_slug)
        (str_eq slug "gift" && is_credit direction)
        (or_bucket (bucket_by_slug slug) (user_bucket users slug))
        (or_not_internal (bucket_by_slug slug) (user_bucket users slug) (map_not_internal slug h) (
          user_not_internal (slug_in slug users.user_expense_slugs)
            (slug_in slug users.user_income_slugs)))

  agrees : (scope : Option Scope) (slug : String) → Agrees scope slug
  agrees scope slug = elim (Bool-cases (str_eq slug "self_transfer")) [
    | inl e ↦ by_name scope slug "self_transfer" e (self_transfer_agrees scope)
    | inr a ↦ elim (Bool-cases (str_eq slug "passthrough")) [
      | inl e ↦ by_name scope slug "passthrough" e (passthrough_agrees scope)
      | inr b ↦ elim (Bool-cases (str_eq slug "personal_loan")) [
        | inl e ↦ by_name scope slug "personal_loan" e (personal_loan_agrees scope)
        | inr c ↦ elim (Bool-cases (str_eq slug "credit_card_payment")) [
          | inl e ↦ by_name scope slug "credit_card_payment" e (card_payment_agrees scope)
          | inr d ↦
              let h = unlisted slug a b c d in
              not_listed scope slug h ∙ sym (not_internal scope slug h)
        ]
      ]
    ]
  ]

-- The filter of internal rows and the report agree: over each scope, for either direction and
-- whatever slugs the user adds, the slugs of the filter are exactly those on the internal line.
pub internal_filter_agrees :
    (users : UserSlugs) (slug : String) (scope : Option Scope) (direction : Option String)
    → slug_in slug (internal_slugs_for_scope scope)
      ≡ is_internal (bucket_for_slug users (some slug) scope direction)
unfolding bucket_for_slug
internal_filter_agrees users slug scope direction = agrees users direction scope slug
