-- ===== src/Categories/Tests.antt =====
-- The theorems on categories (services/categorization/polarity.py, services/cashflow/buckets.py) at
-- single slugs.
use financial_dashboard.Prelude.{◌≡◌, refl, true, false, none, some, [], ◌∷◌}
use financial_dashboard.Categories.Slugs.{slug_in, UserSlugs}
use financial_dashboard.Categories.Polarity.{card_credit_impossible, resolve_direction}
use financial_dashboard.Categories.Stable.{KeepsDefaults}
use financial_dashboard.Categories.Buckets.{
  bank, card, internal, expense, bucket_for_slug, internal_slugs_for_scope,
}
use financial_dashboard.Categories.Internal.{is_internal, internal_filter_agrees}
use financial_dashboard.Categories.Income.{is_income, debit_is_never_income}

abbrev users : UserSlugs
users = record { user_expense_slugs = "pets" ∷ []; user_income_slugs = "freelance" ∷ [] }

users_keep : KeepsDefaults users
unfolding slug_in
users_keep = record { debit = refl; credit = refl; card_expense = refl; card_income = refl }

salary_on_card :
    resolve_direction users "salary" "credit" (some "credit_card")
    ≡ record { slug = "credit_card_payment"; is_changed = true }
unfolding resolve_direction card_credit_impossible
salary_on_card = refl

bill_over_bank : bucket_for_slug users (some "credit_card_payment") (some bank) none ≡ expense
unfolding bucket_for_slug
bill_over_bank = refl

bill_over_all : bucket_for_slug users (some "credit_card_payment") none none ≡ internal
unfolding bucket_for_slug
bill_over_all = refl

internal_filter_agrees_example :
    slug_in "passthrough" (internal_slugs_for_scope (some card))
    ≡ is_internal (bucket_for_slug users (some "passthrough") (some card) none)
internal_filter_agrees_example = internal_filter_agrees users "passthrough" (some card) none

debit_is_never_income_example :
    is_income (
      bucket_for_slug users
        (some (resolve_direction users "salary" "debit" none).slug)
        none
        (some "debit"))
    ≡ false
debit_is_never_income_example = debit_is_never_income users "salary" none none users_keep
