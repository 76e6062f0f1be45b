-- ===== src/Callbacks/RoundTrip.antt =====
-- A tap reaches the handler of its button and names what the button was made from
-- (services/telegram.py).
use financial_dashboard.Prelude.{
  ℕ, ◌<◌, ◌≤◌, ◌≡◌, refl, ◌∙◌, ap, true, false, some, [], ◌∷◌, ◌++◌, ltb, lt→ltb, arith,
}
use financial_dashboard.Prelude.Int.{pos}
use financial_dashboard.Masks.Chars.{Text, is_digit}
use financial_dashboard.Linker.Texts.{same_text, starts_with}
use financial_dashboard.Callbacks.{
  codes, Button, settle, merge_sms, new_sms, link_receivable, dismiss_receivable, pick_account,
  skip_account, mark_paid, Tap, settlement, sms_merge, sms_create, receivable_link,
  receivable_dismiss, account_picked, account_skipped, paid,
}
use financial_dashboard.Callbacks.Numbers.{str_of, int_of, int_of-str_of, str_of-IsDigits, IsDigits}
use financial_dashboard.Callbacks.Split.{
  colon, split, split_at_most, split-part, split-last, split_at_most-part, LacksColon,
  IsDigits-LacksColon,
}
use financial_dashboard.Callbacks.Render.{callback_data}
use financial_dashboard.Callbacks.Read.{
  settlement_of, settlement_ids, merge_ids, create_id, sms_of, link_ids, dismiss_id, receivable_of,
  is_number, only_digits, choice_of, pay_pick_of, paid_of, parse_settlement_callback,
  parse_sms_duplicate_callback, handle_callback, encoded_length,
}

number_part : (n : ℕ) (s : Text) → split (str_of n ++ colon ∷ s) ≡ str_of n ∷ split s
number_part n s = split-part (str_of n) s (IsDigits-LacksColon (str_of n) (str_of-IsDigits n))

number_last : (n : ℕ) → split (str_of n) ≡ str_of n ∷ []
number_last n = split-last (str_of n) (IsDigits-LacksColon (str_of n) (str_of-IsDigits n))

-- The ids at the end of a button's data.
two_numbers : (a b : ℕ) → split (str_of a ++ colon ∷ str_of b) ≡ str_of a ∷ str_of b ∷ []
two_numbers a b = number_part a (str_of b) ∙ ap (λ ps. str_of a ∷ ps) (number_last b)

settlement_parts :
    (u i t : ℕ) (d : Text)
    → LacksColon d
    → split (callback_data (settle u i d t))
      ≡ codes "st" ∷ codes "m" ∷ str_of u ∷ str_of i ∷ d ∷ str_of t ∷ []
unfolding callback_data split
settlement_parts u i t d h =
    ap (λ ps. codes "st" ∷ codes "m" ∷ ps)
      (number_part u _
        ∙ ap (λ ps. str_of u ∷ ps)
            (number_part i _
              ∙ ap (λ ps. str_of i ∷ ps)
                  (split-part d (str_of t) h ∙ ap (λ ps. d ∷ ps) (number_last t))))

settlement_tap :
    (u i t : ℕ) (d : Text)
    → LacksColon d
    → handle_callback (callback_data (settle u i d t))
      ≡ some
          (settlement (record { upload_id = pos u; stmt_idx = pos i; digest = d; target = pos t }))
unfolding handle_callback callback_data parse_settlement_callback settlement_of settlement_ids
    starts_with same_text
settlement_tap u i t d h =
    ap settlement_of (settlement_parts u i t d h)
    ∙ rw (int_of-str_of u, int_of-str_of i, int_of-str_of t) refl

paid_tap : (u : ℕ) → handle_callback (callback_data (mark_paid u)) ≡ some (paid (pos u))
unfolding handle_callback callback_data paid_of starts_with split
paid_tap u = ap paid_of (ap (λ ps. codes "paid" ∷ ps) (number_last u)) ∙ rw (int_of-str_of u) refl

digits_all : (s : Text) → IsDigits s → only_digits s ≡ true
unfolding only_digits
digits_all [] h = refl
digits_all (c ∷ s) h = rw (h.0, digits_all s h.1) refl

digits_number : (s : Text) (n : ℕ) → IsDigits s → int_of s ≡ some (pos n) → is_number s ≡ true
unfolding is_number int_of
digits_number [] n h k = ground (arith, k)
digits_number (c ∷ s) n h k = digits_all (c ∷ s) h

number_ok : (n : ℕ) → is_number (str_of n) ≡ true
number_ok n = digits_number (str_of n) n (str_of-IsDigits n) (int_of-str_of n)

link_tap :
    (p r : ℕ)
    → handle_callback (callback_data (link_receivable p r)) ≡ some (receivable_link (pos p) (pos r))
unfolding handle_callback callback_data receivable_of link_ids starts_with split same_text
link_tap p r =
    ap receivable_of (ap (λ ps. codes "rcv" ∷ codes "v1" ∷ codes "l" ∷ ps) (two_numbers p r))
    ∙ rw (number_ok p, number_ok r, int_of-str_of p, int_of-str_of r) refl

dismiss_tap :
    (p : ℕ)
    → handle_callback (callback_data (dismiss_receivable p)) ≡ some (receivable_dismiss (pos p))
unfolding handle_callback callback_data receivable_of dismiss_id starts_with split same_text
dismiss_tap p =
    ap receivable_of (ap (λ ps. codes "rcv" ∷ codes "v1" ∷ codes "x" ∷ ps) (number_last p))
    ∙ rw (number_ok p, int_of-str_of p) refl

digits_not_skip : (s : Text) → IsDigits s → same_text s (codes "skip") ≡ false
unfolding same_text is_digit
digits_not_skip [] h = refl
digits_not_skip (c ∷ s) h = ground (arith, h.0)

not_skip : (n : ℕ) → same_text (str_of n) (codes "skip") ≡ false
not_skip n = digits_not_skip (str_of n) (str_of-IsDigits n)

pick_tap :
    (t a : ℕ)
    → handle_callback (callback_data (pick_account t a)) ≡ some (account_picked (pos t) (pos a))
unfolding handle_callback callback_data pay_pick_of choice_of starts_with split_at_most
pick_tap t a =
    ap pay_pick_of (
      ap (λ ps. codes "cc_pay_pick" ∷ ps)
        (split_at_most-part 0 (str_of t) (str_of a)
          (IsDigits-LacksColon (str_of t) (str_of-IsDigits t))))
    ∙ rw (int_of-str_of t, not_skip a, int_of-str_of a) refl

skip_tap :
    (t : ℕ) → handle_callback (callback_data (skip_account t)) ≡ some (account_skipped (pos t))
unfolding handle_callback callback_data pay_pick_of choice_of starts_with split_at_most same_text
skip_tap t =
    ap pay_pick_of (
      ap (λ ps. codes "cc_pay_pick" ∷ ps)
        (split_at_most-part 0 (str_of t) (codes "skip")
          (IsDigits-LacksColon (str_of t) (str_of-IsDigits t))))
    ∙ rw (int_of-str_of t) refl

not_above : (n : ℕ) → n ≤ 64 → ltb 64 n ≡ false
not_above n h = ground (arith, h)

merge_tap :
    (a b : ℕ)
    → 0 < a
    → 0 < b
    → encoded_length (callback_data (merge_sms a b)) ≤ 64
    → handle_callback (callback_data (merge_sms a b)) ≡ some (sms_merge (pos a) (pos b))
unfolding handle_callback callback_data parse_sms_duplicate_callback sms_of merge_ids starts_with
    split same_text
merge_tap a b h k fits = rw (not_above _ fits) (
    ap sms_of (ap (λ ps. codes "smsdup" ∷ codes "v1" ∷ codes "m" ∷ ps) (two_numbers a b))
    ∙ rw (int_of-str_of a, int_of-str_of b, lt→ltb 0 a h, lt→ltb 0 b k) refl)

new_tap :
    (a : ℕ)
    → 0 < a
    → encoded_length (callback_data (new_sms a)) ≤ 64
    → handle_callback (callback_data (new_sms a)) ≡ some (sms_create (pos a))
unfolding handle_callback callback_data parse_sms_duplicate_callback sms_of create_id starts_with
    split same_text
new_tap a h fits = rw (not_above _ fits) (
    ap sms_of (ap (λ ps. codes "smsdup" ∷ codes "v1" ∷ codes "n" ∷ ps) (number_last a))
    ∙ rw (int_of-str_of a, lt→ltb 0 a h) refl)

-- What the button names.
abbrev pub named : Button → Tap
named (settle u i d t) =
    settlement (record { upload_id = pos u; stmt_idx = pos i; digest = d; target = pos t })
named (merge_sms a b) = sms_merge (pos a) (pos b)
named (new_sms a) = sms_create (pos a)
named (link_receivable p r) = receivable_link (pos p) (pos r)
named (dismiss_receivable p) = receivable_dismiss (pos p)
named (pick_account t a) = account_picked (pos t) (pos a)
named (skip_account t) = account_skipped (pos t)
named (mark_paid u) = paid (pos u)

-- The ids of rows are above zero, and the hexadecimal digest of a row has no colon.
abbrev pub IsMade : Button → Type 0
IsMade (settle u i d t) = LacksColon d
IsMade (merge_sms a b) = (0 < a) × (0 < b)
IsMade (new_sms a) = 0 < a
IsMade _ = Unit

-- A tap on a button reaches the handler of its kind, and the handler reads back exactly what the
-- button was made from, for each of the eight kinds of button: where its data is within the 64 bytes
-- that Telegram allows, its row ids are above zero, and the digest of a statement row has no colon.
pub tap_reads_button :
    (b : Button)
    → IsMade b
    → encoded_length (callback_data b) ≤ 64
    → handle_callback (callback_data b) ≡ some (named b)
tap_reads_button (settle u i d t) h fits = settlement_tap u i t d h
tap_reads_button (merge_sms a b) h fits = merge_tap a b h.0 h.1 fits
tap_reads_button (new_sms a) h fits = new_tap a h fits
tap_reads_button (link_receivable p r) h fits = link_tap p r
tap_reads_button (dismiss_receivable p) h fits = dismiss_tap p
tap_reads_button (pick_account t a) h fits = pick_tap t a
tap_reads_button (skip_account t) h fits = skip_tap t
tap_reads_button (mark_paid u) h fits = paid_tap u
