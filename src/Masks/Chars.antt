-- ===== src/Masks/Chars.antt =====
-- `normalize_mask` of core/masks.py. A text is the list of the code points of its characters.
use financial_dashboard.Prelude.{
  ℕ, Bool, ◌&&◌, ◌||◌, Option, none, some, List, [], ◌∷◌, ◌==◌, leb, if◌then◌else◌,
}

abbrev pub Text : Type 0
Text = List ℕ

-- `WILDCARD`, the letter X.
abbrev pub wildcard : ℕ
wildcard = 88

-- `"0" <= ch <= "9"`
unfoldable pub is_digit : ℕ → Bool
is_digit c = leb 48 c && leb c 57

-- `WILDCARD_CHARS`: X, x, * and #.
unfoldable pub is_wildcard : ℕ → Bool
is_wildcard c = c == 88 || (c == 120 || (c == 42 || c == 35))

-- `str.isspace` of one character.
unfoldable pub is_space : ℕ → Bool
is_space c =
    leb 9 c && leb c 13
    || (leb 28 c && leb c 32
        || (c == 133
            || (c == 160
                || (c == 5760
                    || (leb 8192 c && leb c 8202
                        || (c == 8232
                            || (c == 8233 || (c == 8239 || (c == 8287 || c == 12288)))))))))

-- `_is_separator`: white space, or a dash.
unfoldable pub is_separator : ℕ → Bool
unfolding is_space
is_separator c = is_space c || c == 45

unfoldable pub put_before : ℕ → Option Text → Option Text
put_before c none = none
put_before c (some out) = some (c ∷ out)

-- The loop of `normalize_mask`: none where it meets a character that it does not understand.
unfoldable pub normalize : Text → Option Text
unfolding is_digit is_wildcard is_separator put_before
normalize [] = some []
normalize (c ∷ s) =
    let rest = normalize s in
    if is_digit c
    then put_before c rest
    else (if is_wildcard c
        then put_before wildcard rest
        else (if is_separator c then rest else none))

-- The text of a result, empty where there is none.
abbrev pub text_or_empty : Option Text → Text
text_or_empty none = []
text_or_empty (some out) = out

unfoldable pub normalize_mask : Option Text → Text
unfolding normalize
normalize_mask none = []
normalize_mask (some s) = text_or_empty (normalize s)
