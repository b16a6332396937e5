-- ===== src/Orders/Pin.antt =====
-- `text.match(/\b(\d{6})\b/)`: the first six digits in a row with no word character on either side.
-- And `normalizeInPhone`.
use vybekart_backend.Shared.{
  ℕ, zero, suc, Bool, false, ◌&&◌, ◌||◌, Option, none, some, [], ◌∷◌, leb, ◌==◌, if◌then◌else◌,
}
use vybekart_backend.Shared.Lists.{length, filter, is_empty}
use vybekart_backend.Shared.Text.{Text}

abbrev pub is_digit : ℕ → Bool
is_digit c = leb b'0' c && leb c b'9'

-- `\w`
abbrev pub is_word : ℕ → Bool
is_word c = is_digit c || (leb b'A' c && leb c b'Z') || (leb b'a' c && leb c b'z') || c == b'_'

-- The first `n` units if all of them are digits and no word character follows.
unfoldable pub digits_then_break : ℕ → Text → Option Text
digits_then_break zero [] = some []
digits_then_break zero (c ∷ s) = if is_word c then none else some []
digits_then_break (suc n) [] = none
digits_then_break (suc n) (c ∷ s) =
    let rest = digits_then_break n s in
    if is_digit c then elim rest [ none ↦ none | some ds ↦ some (c ∷ ds) ] else none

-- The search from one position on; `after_word` tells whether a word character stands before it.
unfoldable pub find_pin_from : Bool → Text → Option Text
find_pin_from after_word [] = none
find_pin_from after_word (c ∷ s) =
    let later = find_pin_from (is_word c) s in
    if after_word
    then later
    else elim (digits_then_break 6 (c ∷ s)) [ none ↦ later | some ds ↦ some ds ]

unfoldable pub find_pin : Text → Option Text
unfolding find_pin_from digits_then_break
find_pin = find_pin_from false

-- `raw.replace(/\D/g, '')`
abbrev pub digits_of : Text → Text
digits_of s = filter is_digit s

abbrev pub has_country_code : Text → Bool
has_country_code (a ∷ b ∷ s) = a == b'9' && b == b'1'
has_country_code _ = false

unfoldable pub normalize_in_phone : Text → Text
normalize_in_phone raw =
    let digits = digits_of raw in
    if is_empty digits
    then raw
    else if length digits == 10
    then b'9' ∷ b'1' ∷ digits
    else if has_country_code digits && length digits == 12
    then digits
    else digits
