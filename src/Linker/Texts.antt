-- ===== src/Linker/Texts.antt =====
-- The text operations and the dictionaries of lists that services/linker.py uses. `lower` changes the
-- letters of ASCII, which is what names of banks are written in.
use financial_dashboard.Prelude.{
  ◌+◌, ◌≡◌, refl, Bool, true, false, ◌&&◌, ◌||◌, List, [], ◌∷◌, ◌++◌, ◌==◌, leb, arith,
  if◌then◌else◌,
}
use mathlib.Core.List.{reverse}
use financial_dashboard.Masks.Chars.{Text, is_space}

unfoldable pub same_text : Text → Text → Bool
same_text [] [] = true
same_text [] (d ∷ t) = false
same_text (c ∷ s) [] = false
same_text (c ∷ s) (d ∷ t) = c == d && same_text s t

unfoldable pub lower : Text → Text
lower [] = []
lower (c ∷ s) = (if leb 65 c && leb c 90 then c + 32 else c) ∷ lower s

unfoldable pub strip_left : Text → Text
unfolding is_space
strip_left [] = []
strip_left (c ∷ s) = let rest = strip_left s in if is_space c then rest else c ∷ s

-- `bank.strip().lower()`
unfoldable pub bank_key : Text → Text
unfolding lower strip_left
bank_key s = lower (reverse (strip_left (reverse (strip_left s))))

unfoldable pub starts_with : Text → Text → Bool
starts_with [] s = true
starts_with (c ∷ p) [] = false
starts_with (c ∷ p) (d ∷ s) = c == d && starts_with p s

-- `p in s`
unfoldable pub contains : Text → Text → Bool
unfolding starts_with
contains p [] = starts_with p []
contains p (c ∷ s) = starts_with p (c ∷ s) || contains p s

-- `d.get(key, [])` and `d.setdefault(key, []).append(x)`, in the order of insertion.
module _ {A : Type 0} where
  unfoldable pub get_list : Text → List (Text × List A) → List A
  unfolding same_text
  get_list key [] = []
  get_list key (e ∷ d) = if same_text e.0 key then e.1 else get_list key d

  unfoldable pub append_to : Text → A → List (Text × List A) → List (Text × List A)
  unfolding same_text
  append_to key x [] = (key, x ∷ []) ∷ []
  append_to key x (e ∷ d) =
      let rest = append_to key x d in
      if same_text e.0 key then (e.0, e.1 ++ x ∷ []) ∷ d else e ∷ rest

pub same_text_sound : (s t : Text) → same_text s t ≡ true → s ≡ t
unfolding same_text
same_text_sound [] [] h = refl
same_text_sound [] (d ∷ t) h = ground arith
same_text_sound (c ∷ s) [] h = ground arith
same_text_sound (c ∷ s) (d ∷ t) h = ground (arith, same_text_sound s t)

pub same_text_refl : (s : Text) → same_text s s ≡ true
unfolding same_text
same_text_refl [] = refl
same_text_refl (c ∷ s) = ground (arith, same_text_refl s)

same_text_trans : (s t u : Text) → same_text s t ≡ true → same_text s u ≡ same_text t u
same_text_trans s t u h = cc (same_text_sound s t h)

same_text_right : (u s t : Text) → same_text s t ≡ true → same_text u s ≡ same_text u t
same_text_right u s t h = cc (same_text_sound s t h)

pub get_list-append_to :
    {A : Type 0} (key k : Text) (x : A) (d : List (Text × List A))
    → get_list key (append_to k x d)
      ≡ (if same_text k key then get_list key d ++ x ∷ [] else get_list key d)
unfolding get_list append_to
get_list-append_to key k x [] = ground arith
get_list-append_to key k x (e ∷ d) =
    ground
      (arith, get_list-append_to key k x d, same_text_trans e.0 k key, same_text_right e.0 k key)
