-- ===== src/Categories/Stable.antt =====
-- What `resolve_direction` (services/categorization/polarity.py) settles on.
use financial_dashboard.Prelude.{
  ◌≡◌, refl, sym, ap, ◌∙◌, Bool, true, false, ◌||◌, Option, String, str_eq, Bool-cases, inl, inr,
  if◌then◌else◌,
}
use financial_dashboard.Categories.Slugs.{slug_in, UserSlugs}
use financial_dashboard.Categories.Polarity.{
  DirectionResult, debit_default, credit_default, cc_credit_default, is_expense_slug,
  is_income_slug, cc_impossible, is_credit_card, debit_impossible, card_credit_impossible,
  credit_impossible, replace_if, resolve_by, resolve_direction,
}

-- The defaults are not among the slugs that the user adds.
pub record KeepsDefaults (users : UserSlugs) : Type 0 where
  pub debit : slug_in debit_default users.user_income_slugs ≡ false
  pub credit : slug_in credit_default users.user_expense_slugs ≡ false
  pub card_expense : slug_in cc_credit_default users.user_expense_slugs ≡ false
  pub card_income : slug_in cc_credit_default users.user_income_slugs ≡ false

pub debit_default_lem :
    (users : UserSlugs) → KeepsDefaults users → debit_impossible users debit_default ≡ false
unfolding debit_impossible is_income_slug
debit_default_lem users k = ap (λ b. b || false) k.debit

credit_default_lem :
    (users : UserSlugs) → KeepsDefaults users → credit_impossible users credit_default ≡ false
unfolding credit_impossible is_expense_slug
credit_default_lem users k = ap (λ b. b || false) k.credit

cc_default_lem :
    (users : UserSlugs)
    → KeepsDefaults users
    → card_credit_impossible users cc_credit_default ≡ false
unfolding card_credit_impossible is_expense_slug cc_impossible
cc_default_lem users k =
    ap (λ b. b || (slug_in cc_credit_default users.user_income_slugs || false)) k.card_expense
    ∙ ap (λ b. b || false) k.card_income

abbrev pub replaced : (b : Bool) (default slug : String) → DirectionResult
replaced b default slug =
    if b
    then record { slug = default; is_changed = true }
    else record { slug = slug; is_changed = false }

replace_if_settles :
    (p : String → Bool) (default slug : String)
    → p default ≡ false
    → replace_if p default (replace_if p default slug).slug
      ≡ record { slug = (replace_if p default slug).slug; is_changed = false }
unfolding replace_if
replace_if_settles p default slug h = elim (Bool-cases (p slug)) [
  | inl e ↦
      let same : replaced (p slug) default slug ≡ record { slug = default; is_changed = true } =
        ap (λ b. replaced b default slug) e in
      ap (λ r. replaced (p r.slug) default r.slug) same
      ∙ ap (λ b. replaced b default default) h
      ∙ ap (λ r. record { slug = r.slug; is_changed = false }) (sym same)
  | inr e ↦
      let same : replaced (p slug) default slug ≡ record { slug = slug; is_changed = false } =
        ap (λ b. replaced b default slug) e in
      ap (λ r. replaced (p r.slug) default r.slug) same
      ∙ ap (λ b. replaced b default slug) e
      ∙ ap (λ r. record { slug = r.slug; is_changed = false }) (sym same)
]

resolve_by_settles :
    (debit credit card : Bool) (users : UserSlugs) (slug : String)
    → KeepsDefaults users
    → resolve_by debit credit card users (resolve_by debit credit card users slug).slug
      ≡ record { slug = (resolve_by debit credit card users slug).slug; is_changed = false }
unfolding resolve_by
resolve_by_settles true credit card users slug k =
    replace_if_settles (debit_impossible users) debit_default slug (debit_default_lem users k)
resolve_by_settles false true true users slug k =
    replace_if_settles (card_credit_impossible users) cc_credit_default slug
      (cc_default_lem users k)
resolve_by_settles false true false users slug k =
    replace_if_settles (credit_impossible users) credit_default slug (credit_default_lem users k)
resolve_by_settles false false card users slug k = refl

-- One pass settles a category: to resolve the result again, for the same direction and account,
-- changes nothing, so no impossible category and no `unknown` survives on a debit or a credit.
pub resolve_direction_settles :
    (users : UserSlugs) (slug direction : String) (account_type : Option String)
    → KeepsDefaults users
    → let r = (resolve_direction users slug direction account_type).slug in
      resolve_direction users r direction account_type ≡ record { slug = r; is_changed = false }
unfolding resolve_direction
resolve_direction_settles users slug direction account_type k =
    resolve_by_settles (str_eq direction "debit") (str_eq direction "credit")
      (is_credit_card account_type) users slug k
