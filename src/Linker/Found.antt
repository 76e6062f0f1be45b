-- ===== src/Linker/Found.antt =====
-- Where the account that `link_transaction` (services/linker.py) assigns comes from.
use financial_dashboard.Prelude.{
  ℕ, ◌≡◌, refl, Bool, true, false, ◌&&◌, not, Option, none, some, List, [], ◌∷◌, ◌++◌,
  if◌then◌else◌, sym, ap, ◌∙◌,
}
use mathlib.Core.List.{append_assoc, append-nil}
use financial_dashboard.Masks.Chars.{Text, normalize_mask}
use financial_dashboard.Linker.Texts.{same_text, bank_key, get_list, append_to, get_list-append_to}
use financial_dashboard.Linker.Context.{
  Account, Card, LinkContext, is_blank, add_account, add_accounts, add_card, add_cards, get_account,
  empty_context, build_link_context,
}

-- The stored masks of the accounts of one bank, in order.
unfoldable pub stored_masks : Text → List Account → List (Text × ℕ)
unfolding bank_key same_text normalize_mask
stored_masks key [] = []
stored_masks key (a ∷ rest) =
    let more = stored_masks key rest in
    let stored = normalize_mask a.account_number in
    if same_text (bank_key a.bank) key && not (is_blank stored) then (stored, a.id) ∷ more else more

-- The ids of the accounts of one bank, in order.
unfoldable pub ids_of_bank : Text → List Account → List ℕ
unfolding bank_key same_text
ids_of_bank key [] = []
ids_of_bank key (a ∷ rest) =
    let more = ids_of_bank key rest in if same_text (bank_key a.bank) key then a.id ∷ more else more

-- The masks of the cards whose account is of one bank, in order.
unfoldable pub stored_cards : Text → List Account → List Card → List (Text × ℕ × ℕ)
unfolding bank_key same_text normalize_mask get_account
stored_cards key accounts [] = []
stored_cards key accounts (c ∷ rest) =
    let more = stored_cards key accounts rest in
    let stored = normalize_mask (some c.card_mask) in
    elim (get_account c.account_id accounts) [
      | none ↦ more
      | some a ↦
          if same_text (bank_key a.bank) key && not (is_blank stored)
          then (stored, c.account_id, c.id) ∷ more
          else more
    ]

append_step :
    {A : Type 0} (p : Bool) (d : List A) (x : A) (xs : List A)
    → (if p then d ++ x ∷ [] else d) ++ xs ≡ d ++ (if p then x ∷ xs else xs)
append_step true d x xs = append_assoc d (x ∷ []) xs
append_step false d x xs = refl

and_false : (b : Bool) → (b && false) ≡ false
and_false true = refl
and_false false = refl

and_true : (b : Bool) → (b && true) ≡ b
and_true true = refl
and_true false = refl

-- One round of a loop that adds an item to the list of its key, unless it skips it.
round :
    {A : Type 0} (skip : Bool) (key k : Text) (x : A) (d : List (Text × List A)) (xs : List A)
    → get_list key (if skip then d else append_to k x d) ++ xs
      ≡ get_list key d ++ (if same_text k key && not skip then x ∷ xs else xs)
round true key k x d xs =
    ap (λ b. get_list key d ++ (if b then x ∷ xs else xs)) (sym (and_false (same_text k key)))
round false key k x d xs =
    ap (λ l. l ++ xs) (get_list-append_to key k x d)
    ∙ append_step (same_text k key) (get_list key d) x xs
    ∙ ap (λ b. get_list key d ++ (if b then x ∷ xs else xs)) (sym (and_true (same_text k key)))

pub add_accounts_lem :
    (key : Text) (ctx : LinkContext) (accounts : List Account)
    → (get_list key (add_accounts ctx accounts).accounts_by_bank_with_masks
        ≡ get_list key ctx.accounts_by_bank_with_masks ++ stored_masks key accounts)
      × (get_list key (add_accounts ctx accounts).accounts_by_bank
          ≡ get_list key ctx.accounts_by_bank ++ ids_of_bank key accounts)
      × ((add_accounts ctx accounts).cards_by_bank ≡ ctx.cards_by_bank)
unfolding add_accounts add_account stored_masks ids_of_bank
add_accounts_lem key ctx [] = (sym (append-nil _), sym (append-nil _), refl)
add_accounts_lem key ctx (a ∷ rest) =
    let r = add_accounts_lem key (add_account ctx a) rest in
    let stored = normalize_mask a.account_number in
    (
      r.0
          ∙ round (is_blank stored) key (bank_key a.bank) (stored, a.id)
              ctx.accounts_by_bank_with_masks (stored_masks key rest),
      r.1
          ∙ ap (λ l. l ++ ids_of_bank key rest)
              (get_list-append_to key (bank_key a.bank) a.id ctx.accounts_by_bank)
          ∙ append_step (same_text (bank_key a.bank) key) (get_list key ctx.accounts_by_bank) a.id
              (ids_of_bank key rest),
      r.2,
    )

card_round :
    (skip : Bool) (o : Option Account) (key stored : Text) (i j : ℕ) (ctx : LinkContext)
    (xs : List (Text × ℕ × ℕ))
    → let next : LinkContext = if skip then ctx else elim o [
      | none ↦ ctx
      | some a ↦ record ctx {
        cards_by_bank = append_to (bank_key a.bank) (stored, i, j) ctx.cards_by_bank;
      }
    ] in
      (get_list key next.cards_by_bank ++ xs
        ≡ get_list key ctx.cards_by_bank ++ elim o [
          | none ↦ xs
          | some a ↦ if same_text (bank_key a.bank) key && not skip then (stored, i, j) ∷ xs else xs
        ])
      × (next.accounts_by_bank_with_masks ≡ ctx.accounts_by_bank_with_masks)
      × (next.accounts_by_bank ≡ ctx.accounts_by_bank)
card_round true none key stored i j ctx xs = (refl, refl, refl)
card_round true (some a) key stored i j ctx xs =
    (round true key (bank_key a.bank) (stored, i, j) ctx.cards_by_bank xs, refl, refl)
card_round false none key stored i j ctx xs = (refl, refl, refl)
card_round false (some a) key stored i j ctx xs =
    (round false key (bank_key a.bank) (stored, i, j) ctx.cards_by_bank xs, refl, refl)

pub add_cards_lem :
    (key : Text) (accounts : List Account) (ctx : LinkContext) (cards : List Card)
    → (get_list key (add_cards accounts ctx cards).cards_by_bank
        ≡ get_list key ctx.cards_by_bank ++ stored_cards key accounts cards)
      × ((add_cards accounts ctx cards).accounts_by_bank_with_masks
          ≡ ctx.accounts_by_bank_with_masks)
      × ((add_cards accounts ctx cards).accounts_by_bank ≡ ctx.accounts_by_bank)
unfolding add_cards add_card stored_cards
add_cards_lem key accounts ctx [] = (sym (append-nil _), refl, refl)
add_cards_lem key accounts ctx (c ∷ rest) =
    let r = add_cards_lem key accounts (add_card accounts ctx c) rest in
    let stored = normalize_mask (some c.card_mask) in
    let step =
      card_round (is_blank stored) (get_account c.account_id accounts) key stored c.account_id c.id
        ctx (stored_cards key accounts rest) in
    (r.0 ∙ step.0, r.1 ∙ step.1, r.2 ∙ step.2)

-- The lists that the lookups read, of the accounts and the cards themselves.
pub build_link_context_lem :
    (key : Text) (accounts : List Account) (cards : List Card)
    → let ctx = build_link_context accounts cards in
      (get_list key ctx.cards_by_bank ≡ stored_cards key accounts cards)
      × (get_list key ctx.accounts_by_bank_with_masks ≡ stored_masks key accounts)
      × (get_list key ctx.accounts_by_bank ≡ ids_of_bank key accounts)
unfolding build_link_context get_list
build_link_context_lem key accounts cards =
    let a = add_accounts_lem key empty_context accounts in
    let c = add_cards_lem key accounts (add_accounts empty_context accounts) cards in
    (
      c.0 ∙ ap (λ d. get_list key d ++ stored_cards key accounts cards) a.2,
      ap (get_list key) c.1 ∙ a.0,
      ap (get_list key) c.2 ∙ a.1,
    )
