-- ===== src/Categories/Slugs.antt =====
-- The slugs of services/categorization/slugs.py and the sets of polarity.py. The sets of the slugs
-- that the user adds, which the program fills at start-up, are the fields of a record.
use financial_dashboard.Prelude.{Bool, false, ◌||◌, String, List, [], ◌∷◌, str_eq}

-- `slug in slugs`
unfoldable pub slug_in : String → List String → Bool
slug_in slug [] = false
slug_in slug (s ∷ slugs) = str_eq slug s || slug_in slug slugs

pub record UserSlugs : Type 0 where
  pub user_expense_slugs : List String
  pub user_income_slugs : List String

abbrev pub repayment_slug : String
repayment_slug = "repayment"

abbrev pub credit_card_payment_slug : String
credit_card_payment_slug = "credit_card_payment"

abbrev pub unknown_slug : String
unknown_slug = "unknown"

abbrev pub credit_card_account_type : String
credit_card_account_type = "credit_card"

abbrev pub expense_slugs : List String
expense_slugs =
    "expense" ∷ "bill_payment" ∷ "groceries" ∷ "dining" ∷ "cafe" ∷ "fuel" ∷ "car_maintenance"
    ∷ "transport" ∷ "shopping" ∷ "utilities" ∷ "subscriptions" ∷ "rent" ∷ "emi_loan" ∷ "insurance"
    ∷ "healthcare" ∷ "entertainment" ∷ "travel" ∷ "education" ∷ "personal_care" ∷ "fees_charges"
    ∷ "laundry" ∷ "professional_services" ∷ "tax" ∷ "cash_withdrawal" ∷ "charity_gift" ∷ "gift" ∷ []

abbrev pub income_slugs : List String
income_slugs =
    "salary" ∷ "interest" ∷ "refund" ∷ "cashback_rewards" ∷ "other_income" ∷ "repayment"
    ∷ "investment_redemption" ∷ "tax_refund" ∷ []
