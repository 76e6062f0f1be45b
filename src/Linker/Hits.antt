-- ===== src/Linker/Hits.antt =====
-- The account that `link_transaction` (services/linker.py) assigns.
use financial_dashboard.Prelude.{
  ℕ, ◌≡◌, refl, Bool, true, false, ◌&&◌, Option, none, some, List, All, is_some, arith,
  if◌then◌else◌, sym, ap, ◌∙◌, subst,
}
use financial_dashboard.Masks.Chars.{Text, normalize_mask}
use financial_dashboard.Linker.Texts.{bank_key, get_list}
use financial_dashboard.Linker.Context.{
  Account, Card, LinkContext, is_missing, expected_account_type, build_link_context,
}
use financial_dashboard.Linker.Link.{
  Transaction, usable, sole, card_matches, find_card_match, account_matches, find_account_match,
  of_type, only_account, find_link, first_hit, assign, link_transaction, when,
}
use financial_dashboard.Linker.Found.{build_link_context_lem}
use financial_dashboard.Linker.Sound.{
  is_account_of, masks_of_bank, ids_in_bank, cards_of_bank, account_matches-All, card_matches-All,
  of_type-All, sole-All,
}

-- The hits of the lookups that read the lists of one bank.
module _ (accounts : List Account) (cards : List Card) (key : Text) where
  abbrev ctx : LinkContext
  ctx = build_link_context accounts cards

  card_hit :
      (incoming : Text) (h : ℕ × ℕ)
      → find_card_match ctx key incoming ≡ some h
      → is_account_of key accounts h.0 ≡ true
  unfolding find_card_match
  card_hit incoming h =
      sole-All (λ e. is_account_of key accounts e.0 ≡ true)
        (card_matches incoming (get_list key ctx.cards_by_bank)) h
        (card_matches-All key accounts incoming (get_list key ctx.cards_by_bank) (
          subst (λ l. All (λ e. is_account_of key accounts e.1 ≡ true) l)
            (sym (build_link_context_lem key accounts cards).0) (cards_of_bank key accounts cards)))

  account_hit :
      (incoming : Text) (a : ℕ)
      → find_account_match ctx key incoming ≡ some a
      → is_account_of key accounts a ≡ true
  unfolding find_account_match
  account_hit incoming a =
      sole-All (λ i. is_account_of key accounts i ≡ true)
        (account_matches incoming (get_list key ctx.accounts_by_bank_with_masks)) a
        (account_matches-All key accounts incoming (get_list key ctx.accounts_by_bank_with_masks) (
          subst (λ l. All (λ e. is_account_of key accounts e.1 ≡ true) l)
            (sym (build_link_context_lem key accounts cards).1) (masks_of_bank key accounts)))

  only_hit :
      (t : Option Text) (a : ℕ)
      → sole (of_type t ctx.account_types (get_list key ctx.accounts_by_bank)) ≡ some a
      → is_account_of key accounts a ≡ true
  only_hit t a =
      sole-All (λ i. is_account_of key accounts i ≡ true)
        (of_type t ctx.account_types (get_list key ctx.accounts_by_bank)) a
        (of_type-All key accounts t ctx.account_types (get_list key ctx.accounts_by_bank) (
          subst (λ l. All (λ i. is_account_of key accounts i ≡ true) l)
            (sym (build_link_context_lem key accounts cards).2) (ids_in_bank key accounts)))

if_some :
    {A : Type 0} (b : Bool) (o : Option A) (x : A) → (if b then o else none) ≡ some x → o ≡ some x
if_some true o x h = h
if_some false o x h = absurd (ground arith)

when-some : {A : Type 0} (b : Bool) (o : Option A) (x : A) → when b o ≡ some x → o ≡ some x
when-some true o x h = h
when-some false o x h = absurd (ground arith)

only_account_hit :
    (accounts : List Account) (cards : List Card) (txn : Transaction) (a : ℕ)
    → only_account (build_link_context accounts cards) txn ≡ some a
    → is_account_of (bank_key txn.bank) accounts a ≡ true
unfolding only_account
only_account_hit accounts cards txn a h =
    only_hit accounts cards (bank_key txn.bank) (expected_account_type txn.email_type) a
      (if_some (is_missing txn.card_mask && is_missing txn.account_mask) _ a h)

some_inj : {A : Type 0} {x y : A} → some x ≡ some y → x ≡ y
some_inj {x} h = ap (λ o. elim o [ none ↦ x | some z ↦ z ]) h

-- A hit of a lookup before the others, by the lookup.
find_link_lem :
    (P : ℕ → Type 0) (o1 : Option (ℕ × ℕ)) (o2 o3 o4 : Option ℕ)
    → ((h : ℕ × ℕ) → o1 ≡ some h → P h.0)
    → ((a : ℕ) → o2 ≡ some a → P a)
    → ((a : ℕ) → o3 ≡ some a → P a)
    → ((a : ℕ) → o4 ≡ some a → P a)
    → (txn : Transaction) (a : ℕ) → txn.account_id ≡ none
    → (assign (first_hit o1 o2 o3 o4) txn).1.account_id ≡ some a
    → P a
unfolding assign
find_link_lem P (some (b, c)) o2 o3 o4 f g h k txn a u e = subst P (some_inj e) (f (b, c) refl)
find_link_lem P none (some b) o3 o4 f g h k txn a u e = subst P (some_inj e) (g b refl)
find_link_lem P none none (some b) o4 f g h k txn a u e = subst P (some_inj e) (h b refl)
find_link_lem P none none none (some b) f g h k txn a u e = subst P (some_inj e) (k b refl)
find_link_lem P none none none none f g h k txn a u e = absurd (ground arith)

-- A link never leaves the bank of its row: the account that an unlinked row gets, by whichever
-- lookup, is an account of the bank that the row names.
pub linked_account_of_bank :
    (accounts : List Account) (cards : List Card) (txn : Transaction) (a : ℕ)
    → txn.account_id ≡ none
    → (link_transaction (build_link_context accounts cards) txn).1.account_id ≡ some a
    → is_account_of (bank_key txn.bank) accounts a ≡ true
unfolding link_transaction find_link
linked_account_of_bank accounts cards txn a u e =
    let ctx = build_link_context accounts cards in
    let key = bank_key txn.bank in
    let card_mask = normalize_mask txn.card_mask in
    let account_mask = normalize_mask txn.account_mask in
    find_link_lem (λ i. is_account_of key accounts i ≡ true)
      (when (usable card_mask) (find_card_match ctx key card_mask))
      (when (usable card_mask) (find_account_match ctx key card_mask))
      (when (usable account_mask) (find_account_match ctx key account_mask)) (only_account ctx txn)
      (λ h p. card_hit accounts cards key card_mask h (when-some (usable card_mask) _ h p))
      (λ b p. account_hit accounts cards key card_mask b (when-some (usable card_mask) _ b p))
      (λ b p. account_hit accounts cards key account_mask b (when-some (usable account_mask) _ b p))
      (λ b p. only_account_hit accounts cards txn b p) txn a u
      (ap (λ o. (if is_some o then (true, txn) else assign (find_link ctx txn) txn).1.account_id)
          (sym u)
        ∙ e)
