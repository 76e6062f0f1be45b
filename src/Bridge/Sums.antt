-- ===== src/Bridge/Sums.antt =====
-- Sums over accounts and rows, for services/cashflow/bridge.py.
use financial_dashboard.Prelude.{
  AreDistinct, ℕ, ◌≡◌, refl, sym, ap, ◌∙◌, subst, false, inl, inr, List, [], ◌∷◌, ◌==◌, ==_iff, All,
  All-In, In, arith, if◌then◌else◌,
}
use financial_dashboard.Prelude.Int.{ℤ, pos, ◌+ℤ◌, int_laws}
use financial_dashboard.Bridge.Total.{sum_by}

pub zero_add : (x : ℤ) → (pos 0 +ℤ x) ≡ x
zero_add x = grind int_laws

pub swap_sums : (a b c d : ℤ) → ((a +ℤ b) +ℤ (c +ℤ d)) ≡ ((a +ℤ c) +ℤ (b +ℤ d))
swap_sums a b c d = grind int_laws

pub sum_by-+ℤ :
    {A : Type 0} (f g : A → ℤ) (xs : List A)
    → sum_by (λ x. f x +ℤ g x) xs ≡ (sum_by f xs +ℤ sum_by g xs)
unfolding sum_by
sum_by-+ℤ f g [] = grind int_laws
sum_by-+ℤ f g (x ∷ xs) =
    ap (λ s. (f x +ℤ g x) +ℤ s) (sum_by-+ℤ f g xs)
    ∙ swap_sums (f x) (g x) (sum_by f xs) (sum_by g xs)

pub sum_by-ext :
    {A : Type 0} (f g : A → ℤ) → ((x : A) → f x ≡ g x) → (xs : List A) → sum_by f xs ≡ sum_by g xs
unfolding sum_by
sum_by-ext f g h [] = refl
sum_by-ext f g h (x ∷ xs) = rw (h x, sum_by-ext f g h xs) refl

pub sum_by-zeros : {A : Type 0} (xs : List A) → sum_by (λ x. pos 0) xs ≡ pos 0
unfolding sum_by
sum_by-zeros [] = refl
sum_by-zeros (x ∷ xs) = rw (sum_by-zeros xs) (zero_add (pos 0))

-- What an account adds that is not in the list: nothing.
sum_absent :
    (a : ℕ) (x : ℤ) (ids : List ℕ)
    → All (λ b. (a == b) ≡ false) ids
    → sum_by (λ (b : ℕ). if a == b then x else pos 0) ids ≡ pos 0
unfolding sum_by
sum_absent a x [] h = refl
sum_absent a x (b ∷ ids) h = rw (h.0, sum_absent a x ids h.1) (grind int_laws)

apart : (a b : ℕ) → (b == a) ≡ false → (a == b) ≡ false
apart a b h = ground (arith, h)

-- What is added at one account of the list is added to the sum once.
pub sum_one :
    (a : ℕ) (x : ℤ) (ids : List ℕ)
    → AreDistinct ids
    → In a ids
    → sum_by (λ (b : ℕ). if a == b then x else pos 0) ids ≡ x
unfolding sum_by
sum_one a x [] d i = absurd i
sum_one a x (b ∷ ids) d (inl e) =
    rw
      (
        (==_iff a b).1 e,
        sum_absent a x ids (subst (λ c. All (λ z. (c == z) ≡ false) ids) (sym e) d.0),
      )
      (grind int_laws)
sum_one a x (b ∷ ids) d (inr i) =
    rw (apart a b (All-In (λ z. (b == z) ≡ false) ids a d.0 i), sum_one a x ids d.1 i) (zero_add x)
