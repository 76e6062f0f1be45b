-- ===== src/Categories/Income.antt =====
-- The income line of the cashflow report (services/cashflow/buckets.py) after
-- `resolve_direction` (services/categorization/polarity.py).
use financial_dashboard.Prelude.{
  ◌≡◌, refl, sym, ap, ◌∙◌, Bool, true, false, ◌&&◌, ◌||◌, not, Option, none, some, String, [], ◌∷◌,
  str_eq, arith, if◌then◌else◌,
}
use financial_dashboard.Categories.Slugs.{
  slug_in, UserSlugs, income_slugs, unknown_slug, repayment_slug, credit_card_payment_slug,
}
use financial_dashboard.Categories.Polarity.{
  debit_default, is_income_slug, debit_impossible, resolve_direction, resolve_by, replace_if,
}
use financial_dashboard.Categories.Stable.{KeepsDefaults, replaced, resolve_direction_settles}
use financial_dashboard.Categories.Buckets.{
  Scope, Bucket, income, expense, uncategorized, is_bank, internal_slugs, contra_expense_slugs,
  in_income_bucket, in_expense_bucket, bucket_by_slug, last_entry, placed, user_bucket, or_bucket,
  bucket_of, bucket_for_slug,
}

abbrev pub is_income : Bucket → Bool
is_income income = true
is_income _ = false

by_test : (b : Bool) (default slug : String) → (replaced b default slug).is_changed ≡ b
by_test true default slug = refl
by_test false default slug = refl

or_left : (a b : Bool) → (a || b) ≡ false → a ≡ false
or_left a b h = ground (arith, h)

or_right : (a b : Bool) → (a || b) ≡ false → b ≡ false
or_right a b h = ground (arith, h)

replaced_flag :
    (p : String → Bool) (default slug : String) → (replace_if p default slug).is_changed ≡ p slug
unfolding replace_if
replaced_flag p default slug = by_test (p slug) default slug

income_slug_false :
    (users : UserSlugs) (r : String)
    → debit_impossible users r ≡ false
    → (slug_in r income_slugs || slug_in r users.user_income_slugs) ≡ false
unfolding debit_impossible is_income_slug
income_slug_false users r h = or_left _ (str_eq r unknown_slug) h

-- The slug of a resolved debit is not impossible.
settled_debit :
    (users : UserSlugs) (slug : String) (account_type : Option String)
    → KeepsDefaults users
    → debit_impossible users (resolve_direction users slug "debit" account_type).slug ≡ false
unfolding resolve_direction resolve_by
settled_debit users slug account_type k =
    let r = (resolve_direction users slug "debit" account_type).slug in
    sym (replaced_flag (debit_impossible users) debit_default r)
    ∙ ap (λ x. x.is_changed) (resolve_direction_settles users slug "debit" account_type k)

abbrev maybe_income : Option Bucket → Bool
maybe_income none = false
maybe_income (some b) = is_income b

placed_not_income :
    (m b g a1 a2 a3 a4 a5 i n u v : Bool)
    → i ≡ false
    → v ≡ false
    → is_income (
        placed m b (g && false) (
          or_bucket
            (last_entry a1 a2 a3 a4 a5 (i && n))
            (if u then expense else (if v then income else uncategorized))))
      ≡ false
placed_not_income m b g a1 a2 a3 a4 a5 i n u v h k = ground (arith, h, k)

-- A debit is never income: once its category is resolved, a debit is not on the income line, over
-- any scope, provided that the slugs that the user adds leave the defaults alone.
pub debit_is_never_income :
    (users : UserSlugs) (slug : String) (account_type : Option String) (scope : Option Scope)
    → KeepsDefaults users
    → is_income (
        bucket_for_slug users
          (some (resolve_direction users slug "debit" account_type).slug)
          scope
          (some "debit"))
      ≡ false
unfolding bucket_for_slug bucket_of bucket_by_slug in_income_bucket user_bucket
debit_is_never_income users slug account_type scope k =
    let r = (resolve_direction users slug "debit" account_type).slug in
    let is_settled = settled_debit users slug account_type k in
    placed_not_income (str_eq r "" || str_eq r unknown_slug)
      (is_bank scope && str_eq r credit_card_payment_slug) (str_eq r "gift") (str_eq r "family")
      (str_eq r repayment_slug) (slug_in r internal_slugs)
      (slug_in r ("investment" ∷ "investment_redemption" ∷ [])) (in_expense_bucket r)
      (slug_in r income_slugs)
      (not (
        slug_in r contra_expense_slugs
        || slug_in r ("investment_redemption" ∷ repayment_slug ∷ [])))
      (slug_in r users.user_expense_slugs) (slug_in r users.user_income_slugs)
      (or_left _ _ (income_slug_false users r is_settled))
      (or_right _ _ (income_slug_false users r is_settled))
