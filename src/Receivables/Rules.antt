-- ===== src/Receivables/Rules.antt =====
-- The unique indexes and the paid sum of services/receivables.py under an appended link, a deleted
-- link and a put receivable.
use financial_dashboard.Prelude.{
  ℕ, ◌+◌, ◌≡◌, refl, true, ◌&&◌, ◌||◌, not, some, List, [], ◌∷◌, ◌++◌, ◌==◌, is_some, All, subst,
  arith, Bool-cases, inl, inr,
}
use financial_dashboard.Receivables.Store.{
  Receivable, Link, Transaction, opened, same_status, is_payment, has_link, pays, is_unique,
  get_receivable, put_receivable, paid_by, link_amount, settle_if_paid,
}
use financial_dashboard.Receivables.Edit.{delete_links}
use financial_dashboard.Receivables.Move.{is_paid_by, settle_paid, delete_stale}

pub has_link-append :
    (r t : ℕ) (ls ms : List Link) → has_link r t (ls ++ ms) ≡ (has_link r t ls || has_link r t ms)
unfolding has_link
has_link-append r t [] ms = refl
has_link-append r t (l ∷ ls) ms = ground (arith, has_link-append r t ls ms)

pub pays-append : (t : ℕ) (ls ms : List Link) → pays t (ls ++ ms) ≡ (pays t ls || pays t ms)
unfolding pays
pays-append t [] ms = refl
pays-append t (l ∷ ls) ms = ground (arith, pays-append t ls ms)

-- A further link meets the indexes exactly if its receivable does not link its row, and the row
-- does not pay if the link pays.
pub is_unique-append :
    (ls : List Link) (l : Link)
    → is_unique (ls ++ (l ∷ [])) ≡ (
        is_unique ls
        && not (
            has_link l.receivable_id l.transaction_id ls
            || (is_payment l.role && pays l.transaction_id ls)))
unfolding is_unique has_link pays
is_unique-append [] l = ground arith
is_unique-append (m ∷ ls) l = ground (
  arith,
  has_link-append m.receivable_id m.transaction_id ls (l ∷ []),
  pays-append m.transaction_id ls (l ∷ []),
  is_unique-append ls l,
)

pub paid_by-append :
    (ts : List Transaction) (r : ℕ) (ls : List Link) (l : Link)
    → paid_by ts r (ls ++ (l ∷ [])) ≡ paid_by ts r ls + link_amount ts r l
unfolding paid_by
paid_by-append ts r [] l = omega arith
paid_by-append ts r (m ∷ ls) l = omega (arith, paid_by-append ts r ls l)

has_link-delete_links :
    (r t q u : ℕ) (ls : List Link)
    → has_link q u (delete_links r t ls) ≡ true
    → has_link q u ls ≡ true
unfolding has_link delete_links
has_link-delete_links r t q u [] h = h
has_link-delete_links r t q u (l ∷ ls) h = ground (arith, has_link-delete_links r t q u ls)

pays-delete_links :
    (r t u : ℕ) (ls : List Link) → pays u (delete_links r t ls) ≡ true → pays u ls ≡ true
unfolding pays delete_links
pays-delete_links r t u [] h = h
pays-delete_links r t u (l ∷ ls) h = ground (arith, pays-delete_links r t u ls)

pub is_unique-delete_links :
    (r t : ℕ) (ls : List Link) → is_unique ls ≡ true → is_unique (delete_links r t ls) ≡ true
unfolding is_unique delete_links
is_unique-delete_links r t [] h = refl
is_unique-delete_links r t (l ∷ ls) h = ground (
  arith,
  has_link-delete_links r t l.receivable_id l.transaction_id ls,
  pays-delete_links r t l.transaction_id ls,
  is_unique-delete_links r t ls,
)

-- A deleted link is gone, and no other.
pub has_link-delete_links_lem :
    (r t q u : ℕ) (ls : List Link)
    → has_link q u (delete_links r t ls) ≡ (has_link q u ls && not (q == r && u == t))
unfolding has_link delete_links
has_link-delete_links_lem r t q u [] = refl
has_link-delete_links_lem r t q u (l ∷ ls) = ground (arith, has_link-delete_links_lem r t q u ls)

has_link-delete_stale :
    (old q u : ℕ) (ls : List Link)
    → has_link q u (delete_stale old ls) ≡ true
    → has_link q u ls ≡ true
unfolding has_link delete_stale
has_link-delete_stale old q u [] h = h
has_link-delete_stale old q u (l ∷ ls) h = ground (arith, has_link-delete_stale old q u ls)

pays-delete_stale :
    (old u : ℕ) (ls : List Link) → pays u (delete_stale old ls) ≡ true → pays u ls ≡ true
unfolding pays delete_stale
pays-delete_stale old u [] h = h
pays-delete_stale old u (l ∷ ls) h = ground (arith, pays-delete_stale old u ls)

pub is_unique-delete_stale :
    (old : ℕ) (ls : List Link) → is_unique ls ≡ true → is_unique (delete_stale old ls) ≡ true
unfolding is_unique delete_stale
is_unique-delete_stale old [] h = refl
is_unique-delete_stale old (l ∷ ls) h = ground (
  arith,
  has_link-delete_stale old l.receivable_id l.transaction_id ls,
  pays-delete_stale old l.transaction_id ls,
  is_unique-delete_stale old ls,
)

is_paid_by-pays : (r t : ℕ) (ls : List Link) → is_paid_by r t ls ≡ true → pays t ls ≡ true
unfolding is_paid_by pays
is_paid_by-pays r t [] h = h
is_paid_by-pays r t (l ∷ ls) h = ground (arith, is_paid_by-pays r t ls)

-- Under the indexes a row pays one receivable.
pub pays_one :
    (r q t : ℕ) (ls : List Link)
    → is_unique ls ≡ true
    → is_paid_by r t ls ≡ true
    → is_paid_by q t ls ≡ true
    → r ≡ q
unfolding is_unique is_paid_by
pays_one r q t [] u h k = cc
pays_one r q t (l ∷ ls) u h k =
    ground (arith, is_paid_by-pays r t ls, is_paid_by-pays q t ls, pays_one r q t ls)

-- `closed_at` is set exactly while the receivable is not open.
abbrev pub IsStamped : Receivable → Type 0
IsStamped r = is_some r.closed_at ≡ not (same_status r.status opened)

pub settle_if_paid-IsStamped :
    (ts : List Transaction) (ls : List Link) (now : ℕ) (r : Receivable)
    → IsStamped r
    → IsStamped (settle_if_paid ts ls now r)
unfolding settle_if_paid
settle_if_paid-IsStamped ts ls now r h = ground arith

pub settle_paid-IsStamped :
    (ts : List Transaction) (ls : List Link) (new now : ℕ) (rs : List Receivable)
    → All IsStamped rs
    → All IsStamped (settle_paid ts ls new now rs)
unfolding settle_paid
settle_paid-IsStamped ts ls new now [] h = tt
settle_paid-IsStamped ts ls new now (r ∷ rs) h = (
  ground (arith, settle_if_paid-IsStamped ts ls now r h.0),
  settle_paid-IsStamped ts ls new now rs h.1,
)

pub put_receivable-All :
    (P : Receivable → Type 0) (r : Receivable) (rs : List Receivable)
    → P r
    → All P rs
    → All P (put_receivable r rs)
unfolding put_receivable
put_receivable-All P r [] h k = tt
put_receivable-All P r (s ∷ rs) h k = elim (Bool-cases (s.id == r.id)) [
  | inl e ↦ rw e (h, k.1)
  | inr e ↦ rw e (k.0, put_receivable-All P r rs h k.1)
]

pub get_receivable-All :
    (P : Receivable → Type 0) (i : ℕ) (rs : List Receivable) {r : Receivable}
    → All P rs
    → get_receivable i rs ≡ some r
    → P r
unfolding get_receivable
get_receivable-All P i [] h e = absurd (ground arith)
get_receivable-All P i (s ∷ rs) h e = elim (Bool-cases (s.id == i)) [
  | inl same ↦ subst P (ground arith) h.0
  | inr other ↦ get_receivable-All P i rs h.1 (ground arith)
]

pub All-append {ℓ} :
    {A : Type ℓ} (P : A → Type 0) (xs ys : List A) → All P xs → All P ys → All P (xs ++ ys)
All-append P [] ys h k = k
All-append P (x ∷ xs) ys h k = (h.0, All-append P xs ys h.1 k)
