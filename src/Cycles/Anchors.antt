-- ===== src/Cycles/Anchors.antt =====
-- The rows of `cc_cycle_window` (services/cc_cycle.py). A date is a number of days, an instant a
-- number of microseconds. `parse_date` stands for the date parser of python-dateutil, which has no
-- result where it raises.
use financial_dashboard.Prelude.{
  ℕ, ◌+◌, ◌/◌, Bool, true, false, ◌&&◌, ◌||◌, Option, none, some, String, List, [], ◌∷◌, ◌==◌, ltb,
  str_eq, if◌then◌else◌,
}

-- The columns of a statement that the cycle reads.
pub record StatementUpload : Type 0 where
  pub id : ℕ
  pub account_id : ℕ
  pub created_at : Option ℕ
  pub due_date : Option String

pub record CycleWindow : Type 0 where
  pub start : ℕ
  pub end : Option ℕ

pub record Anchor : Type 0 where
  pub due : ℕ
  pub id : ℕ
  pub created_at : Option ℕ

abbrev pub day_length : ℕ
day_length = 86400000000

-- `datetime.date()`
abbrev pub date_of : ℕ → ℕ
date_of t = t / day_length

-- `_due`: no text or an empty one has no due date.
unfoldable pub due : (String → Option ℕ) → Option String → Option ℕ
due parse_date none = none
due parse_date (some text) = if str_eq text "" then none else parse_date text

unfoldable pub boundary : Option ℕ → Option ℕ → Option ℕ
boundary (some earlier_due) later_created = some (earlier_due + 1)
boundary none (some later_created) = some (date_of later_created)
boundary none none = none

-- The statements of the account that have a due date.
unfoldable pub anchors : (String → Option ℕ) → ℕ → List StatementUpload → List Anchor
unfolding due
anchors parse_date account [] = []
anchors parse_date account (u ∷ us) =
    let rest = anchors parse_date account us in
    elim (due parse_date u.due_date) [
      | none ↦ rest
      | some d ↦
          if u.account_id == account
          then record { due = d; id = u.id; created_at = u.created_at } ∷ rest
          else rest
    ]

-- The order of the sort key, the due date and then the id.
abbrev pub comes_before : Anchor → Anchor → Bool
comes_before a b = ltb a.due b.due || (a.due == b.due && ltb a.id b.id)

unfoldable pub insert_anchor : Anchor → List Anchor → List Anchor
insert_anchor a [] = a ∷ []
insert_anchor a (b ∷ bs) =
    let rest = insert_anchor a bs in if comes_before b a then b ∷ rest else a ∷ b ∷ bs

unfoldable pub sort_anchors : List Anchor → List Anchor
unfolding insert_anchor
sort_anchors [] = []
sort_anchors (a ∷ xs) = insert_anchor a (sort_anchors xs)

-- `earlier` and `later`.
unfoldable pub due_before : ℕ → List Anchor → List Anchor
due_before d [] = []
due_before d (a ∷ xs) = let rest = due_before d xs in if ltb a.due d then a ∷ rest else rest

unfoldable pub due_after : ℕ → List Anchor → List Anchor
due_after d [] = []
due_after d (a ∷ xs) = let rest = due_after d xs in if ltb d a.due then a ∷ rest else rest

-- `earlier[-1][0] if earlier else None`
unfoldable pub last_due : List Anchor → Option ℕ
last_due [] = none
last_due (a ∷ xs) = elim (last_due xs) [ none ↦ some a.due | some d ↦ some d ]

-- `later[0][2] if has_next else None`
abbrev pub first_created : List Anchor → Option ℕ
first_created [] = none
first_created (a ∷ xs) = a.created_at

abbrev pub is_empty : List Anchor → Bool
is_empty [] = true
is_empty (a ∷ xs) = false

abbrev pub earliest : Option ℕ → Option ℕ → Option ℕ
earliest none s = s
earliest (some t) none = some t
earliest (some t) (some s) = if ltb s t then some s else some t

-- The first ingestion of the anchors due on the day, none where no anchor has one.
unfoldable pub group_created : ℕ → List Anchor → Option ℕ
group_created d [] = none
group_created d (a ∷ xs) =
    let rest = group_created d xs in if a.due == d then earliest a.created_at rest else rest
