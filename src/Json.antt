-- ===== src/Json.antt =====
-- JSON values as the program receives and stores them (columns of type `Json`), and JavaScript's
-- conversions of them. A number is `nan` or a whole number of hundredths: the amounts that the
-- program handles have at most two decimals.
use vybekart_backend.Shared.{
  ◌*◌, ◌+◌, Bool, true, false, Option, none, some, List, [], ◌∷◌, if◌then◌else◌,
}
use vybekart_backend.Shared.Int.{ℤ, pos, negsuc}
use vybekart_backend.Shared.Text.{Text, text_eq}

pub data Number : Type 0 where
  nan : Number
  fin : ℤ → Number

mutual
  pub data Value : Type 0 where
    null : Value
    bool : Bool → Value
    num : Number → Value
    str : Text → Value
    arr : Values → Value
    obj : Fields → Value

  pub data Values : Type 0 where
    nil : Values
    cons : Value → Values → Values

  -- The entries of an object, by their keys, which are distinct.
  pub data Fields : Type 0 where
    end : Fields
    field : Text → Value → Fields → Fields

-- `Number(v)` of a string, an array or an object, and `String(v)` of what is no string: the
-- engine's own conversions.
pub record Conversions : Type 0 where
  pub number_of : Value → Number
  pub text_of : Value → Text

-- `o[k]`, where `none` is `undefined`
unfoldable pub get : Text → Fields → Option Value
get k end = none
get k (field j v fs) = if text_eq j k then some v else get k fs

-- `xs.map(f)`, and an array of values
unfoldable pub of_list {ℓ} : {A : Type ℓ} → (A → Value) → List A → Values
of_list f [] = nil
of_list f (x ∷ xs) = cons (f x) (of_list f xs)

-- A whole number as JSON.
abbrev pub whole : ℤ → Number
whole (pos n) = fin (pos (n * 100))
whole (negsuc n) = fin (negsuc (n * 100 + 99))

module _ (js : Conversions) where
  -- `Number(v)`
  abbrev pub to_number : Option Value → Number
  to_number none = nan
  to_number (some null) = fin (pos 0)
  to_number (some (bool true)) = fin (pos 100)
  to_number (some (bool false)) = fin (pos 0)
  to_number (some (num n)) = n
  to_number (some v) = js.number_of v

  -- `String(v)`
  abbrev pub to_text : Value → Text
  to_text (str s) = s
  to_text v = js.text_of v

  -- `String(v ?? '')`
  abbrev pub to_text_or_empty : Option Value → Text
  to_text_or_empty none = []
  to_text_or_empty (some null) = []
  to_text_or_empty (some v) = to_text v

  -- `v != null ? Number(v) : undefined`
  abbrev pub number_if_given : Option Value → Option Number
  number_if_given none = none
  number_if_given (some null) = none
  number_if_given (some v) = some (to_number (some v))

  -- `v != null ? String(v) : undefined`
  abbrev pub text_if_given : Option Value → Option Text
  text_if_given none = none
  text_if_given (some null) = none
  text_if_given (some v) = some (to_text v)
