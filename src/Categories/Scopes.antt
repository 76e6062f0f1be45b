-- ===== src/Categories/Scopes.antt =====
-- The lines of the cashflow report over each scope (services/cashflow/buckets.py).
use financial_dashboard.Prelude.{
  ◌≡◌, refl, sym, ap, ◌∙◌, subst, Bool, false, ◌&&◌, ◌||◌, Option, none, some, String, str_eq,
  eq_iff, Bool-cases, inl, inr, if◌then◌else◌,
}
use financial_dashboard.Categories.Slugs.{UserSlugs, unknown_slug, credit_card_payment_slug}
use financial_dashboard.Categories.Buckets.{
  Scope, bank, card, unaccounted, expense, is_bank, bucket_by_slug, placed, is_credit, user_bucket,
  or_bucket, bucket_of, bucket_for_slug,
}

abbrev pub is_card_payment : Option String → Bool
is_card_payment none = false
is_card_payment (some slug) = str_eq slug credit_card_payment_slug

bank_bucket :
    (users : UserSlugs) (slug : String) (direction : Option String)
    → bucket_of users slug (some bank) direction ≡ (
        if str_eq slug credit_card_payment_slug
        then expense
        else bucket_of users slug none direction)
unfolding bucket_of
bank_bucket users slug direction = elim (Bool-cases (str_eq slug credit_card_payment_slug)) [
  | inl e ↦
      subst
        (λ s. bucket_of users s (some bank) direction ≡ (
          if str_eq s credit_card_payment_slug then expense else bucket_of users s none direction))
        (sym ((eq_iff slug credit_card_payment_slug).0 e)) refl
  | inr e ↦
      ap
        (λ b.
          placed (str_eq slug "" || str_eq slug unknown_slug) b
            (str_eq slug "gift" && is_credit direction)
            (or_bucket (bucket_by_slug slug) (user_bucket users slug)))
        e
      ∙ ap (λ b. if b then expense else bucket_of users slug none direction) (sym e)
]

-- The bank's scope moves the card bills, and nothing else: over the bank they are spend, and in every
-- other case a slug is on the line on which it is over all accounts.
pub scope_moves_card_bills :
    (users : UserSlugs) (slug : Option String) (scope : Option Scope) (direction : Option String)
    → bucket_for_slug users slug scope direction ≡ (
        if is_bank scope && is_card_payment slug
        then expense
        else bucket_for_slug users slug none direction)
unfolding bucket_for_slug bucket_of
scope_moves_card_bills users none none direction = refl
scope_moves_card_bills users none (some bank) direction = refl
scope_moves_card_bills users none (some card) direction = refl
scope_moves_card_bills users none (some unaccounted) direction = refl
scope_moves_card_bills users (some slug) none direction = refl
scope_moves_card_bills users (some slug) (some card) direction = refl
scope_moves_card_bills users (some slug) (some unaccounted) direction = refl
scope_moves_card_bills users (some slug) (some bank) direction = bank_bucket users slug direction
