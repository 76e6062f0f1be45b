-- ===== src/Linker/Sound.antt =====
-- What `link_transaction` (services/linker.py) may assign.
use financial_dashboard.Prelude.{
  ℕ, ◌≡◌, inl, inr, refl, Bool, true, false, ◌&&◌, ◌||◌, not, Option, none, some, List, [], ◌∷◌,
  ◌==◌, All, Bool-cases, arith, if◌then◌else◌, sym, ap, ◌∙◌, subst,
}
use financial_dashboard.Masks.Chars.{Text, normalize_mask}
use financial_dashboard.Linker.Texts.{same_text, bank_key}
use financial_dashboard.Linker.Context.{Account, Card, is_blank, get_account}
use financial_dashboard.Linker.Link.{sole, card_matches, account_matches, of_type}
use financial_dashboard.Linker.Found.{stored_masks, stored_cards, ids_of_bank}

-- Whether an account of the bank has the id.
unfoldable pub is_account_of : Text → List Account → ℕ → Bool
unfolding same_text bank_key
is_account_of key [] i = false
is_account_of key (a ∷ rest) i =
    a.id == i && same_text (bank_key a.bank) key || is_account_of key rest i

cond_true : {A : Type 0} {b : Bool} → b ≡ true → (x y : A) → x ≡ (if b then x else y)
cond_true h x y = ap (λ c. if c then x else y) (sym h)

All-if :
    {A : Type 0} (P : A → Type 0) (b : Bool) (x : A) (xs : List A)
    → (b ≡ true → P x)
    → All P xs
    → All P (if b then x ∷ xs else xs)
All-if P true x xs h k = (h refl, k)
All-if P false x xs h k = k

module _ (key : Text) where
  pub weaken :
      {A : Type 0} (f : A → ℕ) (a : Account) (rest : List Account) (xs : List A)
      → All (λ x. is_account_of key rest (f x) ≡ true) xs
      → All (λ x. is_account_of key (a ∷ rest) (f x) ≡ true) xs
  unfolding is_account_of
  weaken f a rest [] h = tt
  weaken f a rest (x ∷ xs) h = (ground (arith, h.0), weaken f a rest xs h.1)

  pub masks_of_bank :
      (accounts : List Account)
      → All (λ e. is_account_of key accounts e.1 ≡ true) (stored_masks key accounts)
  unfolding stored_masks is_account_of
  masks_of_bank [] = tt
  masks_of_bank (a ∷ rest) =
      let more = weaken (λ e. e.1) a rest (stored_masks key rest) (masks_of_bank rest) in
      All-if (λ e. is_account_of key (a ∷ rest) e.1 ≡ true)
        (same_text (bank_key a.bank) key && not (is_blank (normalize_mask a.account_number)))
        (normalize_mask a.account_number, a.id) (stored_masks key rest) (λ h. ground (arith, h))
        more

  pub ids_in_bank :
      (accounts : List Account)
      → All (λ i. is_account_of key accounts i ≡ true) (ids_of_bank key accounts)
  unfolding ids_of_bank is_account_of
  ids_in_bank [] = tt
  ids_in_bank (a ∷ rest) =
      let more = weaken (λ i. i) a rest (ids_of_bank key rest) (ids_in_bank rest) in
      All-if (λ i. is_account_of key (a ∷ rest) i ≡ true) (same_text (bank_key a.bank) key) a.id
        (ids_of_bank key rest) (λ h. ground (arith, h)) more

  get_account-is_account_of :
      (i : ℕ) (accounts : List Account) (a : Account)
      → get_account i accounts ≡ some a
      → same_text (bank_key a.bank) key ≡ true
      → is_account_of key accounts i ≡ true
  unfolding get_account is_account_of
  get_account-is_account_of i [] a h k = ground (arith, h)
  get_account-is_account_of i (b ∷ rest) a h k = elim (Bool-cases (b.id == i)) [
    | inl e ↦
        let same : some b ≡ some a = cond_true e (some b) (get_account i rest) ∙ h in
        let bank : b.bank ≡ a.bank = ap (λ o. elim o [ none ↦ b.bank | some z ↦ z.bank ]) same in
        ground (arith, e, k, bank)
    | inr e ↦ ground (arith, e, get_account-is_account_of i rest a (ground (arith, h, e)) k)
  ]

  card_of_bank :
      (accounts : List Account) (o : Option Account) (stored : Text) (i j : ℕ)
      (xs : List (Text × ℕ × ℕ))
      → get_account i accounts ≡ o
      → All (λ e. is_account_of key accounts e.1 ≡ true) xs
      → All
          (λ e. is_account_of key accounts e.1 ≡ true)
          (elim o [
            | none ↦ xs
            | some a ↦
                if same_text (bank_key a.bank) key && not (is_blank stored)
                then (stored, i, j) ∷ xs
                else xs
          ])
  card_of_bank accounts none stored i j xs h more = more
  card_of_bank accounts (some a) stored i j xs h more =
      All-if (λ e. is_account_of key accounts e.1 ≡ true)
        (same_text (bank_key a.bank) key && not (is_blank stored)) (stored, i, j) xs
        (λ k. get_account-is_account_of i accounts a h (ground (arith, k))) more

  pub cards_of_bank :
      (accounts : List Account) (cards : List Card)
      → All (λ e. is_account_of key accounts e.1 ≡ true) (stored_cards key accounts cards)
  unfolding stored_cards
  cards_of_bank accounts [] = tt
  cards_of_bank accounts (c ∷ rest) =
      card_of_bank accounts (get_account c.account_id accounts) (normalize_mask (some c.card_mask))
        c.account_id c.id (stored_cards key accounts rest) refl (cards_of_bank accounts rest)

  pub account_matches-All :
      (accounts : List Account) (incoming : Text) (es : List (Text × ℕ))
      → All (λ e. is_account_of key accounts e.1 ≡ true) es
      → All (λ i. is_account_of key accounts i ≡ true) (account_matches incoming es)
  unfolding account_matches
  account_matches-All accounts incoming [] h = tt
  account_matches-All accounts incoming (e ∷ es) h =
      ground (arith, h.0, account_matches-All accounts incoming es h.1)

  pub card_matches-All :
      (accounts : List Account) (incoming : Text) (es : List (Text × ℕ × ℕ))
      → All (λ e. is_account_of key accounts e.1 ≡ true) es
      → All (λ e. is_account_of key accounts e.0 ≡ true) (card_matches incoming es)
  unfolding card_matches
  card_matches-All accounts incoming [] h = tt
  card_matches-All accounts incoming (e ∷ es) h =
      ground (arith, h.0, card_matches-All accounts incoming es h.1)

  pub of_type-All :
      (accounts : List Account) (t : Option Text) (types : List (ℕ × Text)) (is : List ℕ)
      → All (λ i. is_account_of key accounts i ≡ true) is
      → All (λ i. is_account_of key accounts i ≡ true) (of_type t types is)
  unfolding of_type
  of_type-All accounts none types is h = h
  of_type-All accounts (some t) types [] h = tt
  of_type-All accounts (some t) types (i ∷ is) h =
      ground (arith, h.0, of_type-All accounts (some t) types is h.1)

pub sole-All :
    {A : Type 0} (P : A → Type 0) (xs : List A) (x : A) → All P xs → sole xs ≡ some x → P x
sole-All P [] x h e = absurd (ground arith)
sole-All P (y ∷ []) x h e = subst P (ap (λ o. elim o [ none ↦ x | some z ↦ z ]) e) h.0
sole-All P (y ∷ z ∷ xs) x h e = absurd (ground arith)
