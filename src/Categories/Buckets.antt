-- ===== src/Categories/Buckets.antt =====
-- `bucket_for_slug` and `internal_slugs_for_scope` of services/cashflow/buckets.py.
use financial_dashboard.Prelude.{
  Bool, true, false, ◌&&◌, ◌||◌, not, Option, none, some, String, List, [], ◌∷◌, str_eq,
  if◌then◌else◌,
}
use financial_dashboard.Categories.Slugs.{
  slug_in, UserSlugs, repayment_slug, credit_card_payment_slug, unknown_slug, expense_slugs,
  income_slugs,
}

pub data Scope : Type 0 where
  bank card unaccounted : Scope

pub data Bucket : Type 0 where
  income expense investment transfers_in family internal uncategorized : Bucket

abbrev pub is_bank : Option Scope → Bool
is_bank (some bank) = true
is_bank _ = false

-- `CONTRA_EXPENSE_SLUGS`, `INTERNAL_SLUGS` and `BANK_INTERNAL_SLUGS`.
abbrev pub contra_expense_slugs : List String
contra_expense_slugs = "refund" ∷ "cashback_rewards" ∷ "reimbursement" ∷ []

abbrev pub internal_slugs : List String
internal_slugs = "self_transfer" ∷ "passthrough" ∷ "personal_loan" ∷ "credit_card_payment" ∷ []

abbrev pub bank_internal_slugs : List String
bank_internal_slugs = "self_transfer" ∷ "passthrough" ∷ "personal_loan" ∷ []

unfoldable pub in_income_bucket : String → Bool
unfolding slug_in
in_income_bucket slug =
    slug_in slug income_slugs
    && not (
        slug_in slug contra_expense_slugs
        || slug_in slug ("investment_redemption" ∷ repayment_slug ∷ []))

unfoldable pub in_expense_bucket : String → Bool
unfolding slug_in
in_expense_bucket slug =
    slug_in slug expense_slugs
    || (slug_in slug contra_expense_slugs || slug_in slug ("cash_withdrawal" ∷ "misc" ∷ []))

-- A later entry of the literal `BUCKET_BY_SLUG` replaces an earlier one.
abbrev pub last_entry : Bool → Bool → Bool → Bool → Bool → Bool → Option Bucket
last_entry is_family is_repayment is_internal is_investment is_expense is_income =
    if is_family
    then some family
    else (if is_repayment
        then some transfers_in
        else (if is_internal
            then some internal
            else (if is_investment
                then some investment
                else (if is_expense
                    then some expense
                    else (if is_income then some income else none)))))

-- `BUCKET_BY_SLUG.get`
unfoldable pub bucket_by_slug : String → Option Bucket
unfolding in_income_bucket in_expense_bucket
bucket_by_slug slug =
    last_entry (str_eq slug "family") (str_eq slug repayment_slug) (slug_in slug internal_slugs)
      (slug_in slug ("investment" ∷ "investment_redemption" ∷ [])) (in_expense_bucket slug)
      (in_income_bucket slug)

abbrev pub is_credit : Option String → Bool
is_credit none = false
is_credit (some d) = str_eq d "credit"

-- A slug that the map does not have, by the sets of the user.
unfoldable pub user_bucket : UserSlugs → String → Bucket
unfolding slug_in
user_bucket users slug =
    if slug_in slug users.user_expense_slugs
    then expense
    else (if slug_in slug users.user_income_slugs then income else uncategorized)

abbrev pub or_bucket : Option Bucket → Bucket → Bucket
or_bucket none b = b
or_bucket (some a) b = a

-- The early returns before the map.
abbrev pub placed : Bool → Bool → Bool → Bucket → Bucket
placed is_missing is_bill is_gift_credit rest =
    if is_missing
    then uncategorized
    else (if is_bill then expense else (if is_gift_credit then income else rest))

unfoldable pub bucket_of : UserSlugs → String → Option Scope → Option String → Bucket
unfolding bucket_by_slug user_bucket
bucket_of users slug scope direction =
    placed (str_eq slug "" || str_eq slug unknown_slug)
      (is_bank scope && str_eq slug credit_card_payment_slug)
      (str_eq slug "gift" && is_credit direction)
      (or_bucket (bucket_by_slug slug) (user_bucket users slug))

unfoldable pub bucket_for_slug : UserSlugs → Option String → Option Scope → Option String → Bucket
unfolding bucket_of
bucket_for_slug users none scope direction = uncategorized
bucket_for_slug users (some slug) scope direction = bucket_of users slug scope direction

unfoldable pub internal_slugs_for_scope : Option Scope → List String
internal_slugs_for_scope scope = if is_bank scope then bank_internal_slugs else internal_slugs
