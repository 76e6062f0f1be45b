-- ===== src/Prelude/Lists.antt =====
-- Lists measured by native numbers, and predicates on them by recursion.
use Prim.Native.Nat.{ℕ, zero, suc}
use mathlib.Core.Path.{◌≡◌, refl, sym, subst}
use mathlib.Core.Logic.{◌⊎◌, inl, inr}
use mathlib.Core.Bool.{Bool, true, false}
use financial_dashboard.Prelude.Tests.{◌==◌, Bool-cases, if◌then◌else◌}
use mathlib.Core.List.{List, [], ◌∷◌}

module _ {ℓ} {A : Type ℓ} where
  abbrev pub length : List A → ℕ
  length [] = 0
  length (x ∷ xs) = suc (length xs)

  abbrev pub get_or : List A → ℕ → A → A
  get_or [] i d = d
  get_or (x ∷ xs) zero d = x
  get_or (x ∷ xs) (suc i) d = get_or xs i d

-- A predicate that every item meets.
abbrev pub All {ℓ κ} : {A : Type ℓ} → (A → Type κ) → List A → Type κ
All P [] = Unit
All P (x ∷ xs) = P x × All P xs

-- No number occurs twice.
abbrev pub AreDistinct : List ℕ → Type 0
AreDistinct [] = Unit
AreDistinct (a ∷ ids) = All (λ b. (a == b) ≡ false) ids × AreDistinct ids

-- `x in xs`, as a sum over the items.
abbrev pub In : {A : Type 0} → A → List A → Type 0
In x [] = ⊥
In x (y ∷ ys) = (x ≡ y) ⊎ In x ys

pub All-In {κ} : {A : Type 0} (P : A → Type κ) (xs : List A) (x : A) → All P xs → In x xs → P x
All-In P [] x a i = absurd i
All-In P (y ∷ ys) x a (inl e) = subst P (sym e) a.0
All-In P (y ∷ ys) x a (inr i) = All-In P ys x a.1 i

pub In-All {κ} : {A : Type 0} (P : A → Type κ) (xs : List A) → ((x : A) → In x xs → P x) → All P xs
In-All P [] h = tt
In-All P (y ∷ ys) h = (h y (inl refl), In-All P ys (λ x i. h x (inr i)))

In-if :
    {A : Type 0} (b : Bool) (y : A) (ys : List A) (x : A)
    → In x (if b then y ∷ ys else ys)
    → (x ≡ y) × (b ≡ true) ⊎ In x ys
In-if true y ys x (inl e) = inl (e, refl)
In-if true y ys x (inr i) = inr i
In-if false y ys x i = inr i

module _ {A : Type 0} (p : A → Bool) where
  -- `[x for x in xs if p(x)]`
  unfoldable pub keep_if : List A → List A
  keep_if [] = []
  keep_if (x ∷ xs) = let rest = keep_if xs in if p x then x ∷ rest else rest

  pub In-keep_if : (xs : List A) (x : A) → In x (keep_if xs) → In x xs × (p x ≡ true)
  unfolding keep_if
  In-keep_if [] x i = absurd i
  In-keep_if (y ∷ ys) x i = elim (In-if (p y) y (keep_if ys) x i) [
    | inl (e, h) ↦ (inl e, subst (λ z. p z ≡ true) (sym e) h)
    | inr j ↦ (inr (In-keep_if ys x j).0, (In-keep_if ys x j).1)
  ]

  pub keep_if-In : (xs : List A) (x : A) → In x xs → p x ≡ true → In x (keep_if xs)
  unfolding keep_if
  keep_if-In [] x i h = absurd i
  keep_if-In (y ∷ ys) x (inl e) h = rw (subst (λ z. p z ≡ true) e h) (inl e)
  keep_if-In (y ∷ ys) x (inr i) h = elim (Bool-cases (p y)) [
    | inl e ↦ rw e (inr (keep_if-In ys x i h))
    | inr e ↦ rw e (keep_if-In ys x i h)
  ]

pub List-cases {ℓ} :
    {A : Type ℓ} (xs : List A) → (xs ≡ []) ⊎ ((x : A) × ((ys : List A) × (xs ≡ x ∷ ys)))
List-cases [] = inl refl
List-cases (x ∷ ys) = inr (x, (ys, refl))
