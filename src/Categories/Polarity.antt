-- ===== src/Categories/Polarity.antt =====
-- `resolve_direction` of services/categorization/polarity.py.
use financial_dashboard.Prelude.{
  Bool, true, false, ◌&&◌, ◌||◌, not, Option, none, some, String, [], ◌∷◌, str_eq, if◌then◌else◌,
}
use financial_dashboard.Categories.Slugs.{
  slug_in, UserSlugs, repayment_slug, credit_card_payment_slug, unknown_slug,
  credit_card_account_type, expense_slugs, income_slugs,
}

pub record DirectionResult : Type 0 where
  pub slug : String
  pub is_changed : Bool

abbrev pub debit_default : String
debit_default = "expense"

abbrev pub credit_default : String
credit_default = repayment_slug

abbrev pub cc_credit_default : String
cc_credit_default = credit_card_payment_slug

unfoldable pub is_expense_slug : UserSlugs → String → Bool
unfolding slug_in
is_expense_slug users slug = slug_in slug expense_slugs || slug_in slug users.user_expense_slugs

unfoldable pub is_income_slug : UserSlugs → String → Bool
unfolding slug_in
is_income_slug users slug = slug_in slug income_slugs || slug_in slug users.user_income_slugs

-- `CC_IMPOSSIBLE_CREDIT_SLUGS`: the income slugs but refunds and rewards.
unfoldable pub cc_impossible : String → Bool
unfolding slug_in
cc_impossible slug =
    slug_in slug income_slugs && not (slug_in slug ("refund" ∷ "cashback_rewards" ∷ []))

abbrev pub is_credit_card : Option String → Bool
is_credit_card none = false
is_credit_card (some t) = str_eq t credit_card_account_type

-- Whether a slug cannot stand on a row: the test of each branch.
unfoldable pub debit_impossible : UserSlugs → String → Bool
unfolding is_income_slug
debit_impossible users slug = is_income_slug users slug || str_eq slug unknown_slug

unfoldable pub card_credit_impossible : UserSlugs → String → Bool
unfolding is_expense_slug cc_impossible slug_in
card_credit_impossible users slug =
    is_expense_slug users slug
    || (cc_impossible slug || (slug_in slug users.user_income_slugs || str_eq slug unknown_slug))

unfoldable pub credit_impossible : UserSlugs → String → Bool
unfolding is_expense_slug
credit_impossible users slug = is_expense_slug users slug || str_eq slug unknown_slug

-- A slug that is impossible is replaced by the default.
unfoldable pub replace_if : (String → Bool) → String → String → DirectionResult
replace_if is_impossible default slug =
    if is_impossible slug
    then record { slug = default; is_changed = true }
    else record { slug = slug; is_changed = false }

-- By whether the row is a debit, a credit, and on a credit card.
unfoldable pub resolve_by : Bool → Bool → Bool → UserSlugs → String → DirectionResult
unfolding replace_if
resolve_by true credit card users slug = replace_if (debit_impossible users) debit_default slug
resolve_by false true true users slug =
    replace_if (card_credit_impossible users) cc_credit_default slug
resolve_by false true false users slug = replace_if (credit_impossible users) credit_default slug
resolve_by false false card users slug = record { slug = slug; is_changed = false }

unfoldable pub resolve_direction : UserSlugs → String → String → Option String → DirectionResult
unfolding resolve_by
resolve_direction users slug direction account_type =
    resolve_by (str_eq direction "debit") (str_eq direction "credit") (is_credit_card account_type)
      users slug
