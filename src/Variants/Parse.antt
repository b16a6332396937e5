-- ===== src/Variants/Parse.antt =====
-- `parseVariantOptions` and `parseVariantItems`: rows that do not conform are dropped.
use vybekart_backend.Shared.{ℕ, ◌/◌, ◌||◌, Option, none, some, List, [], ◌∷◌, if◌then◌else◌}
use vybekart_backend.Shared.Lists.{is_empty}
use vybekart_backend.Shared.Int.{ℤ, pos, negsuc}
use vybekart_backend.Shared.Text.{Text, codes, trim}
use vybekart_backend.Json.{
  Number, nan, fin, Value, Values, nil, cons, Fields, end, field, arr, obj, Conversions, get,
  to_number, to_text, to_text_or_empty, number_if_given, text_if_given,
}

pub record VariantOption : Type 0 where
  pub option_name : Text
  pub option_values : List Text

-- The discount and the prices are in hundredths. The stock falls below zero only between the
-- subtraction and the test in `applyVariantStockDelta`.
pub record VariantItem : Type 0 where
  pub id : Text
  pub label : Text
  pub selection : List (Text × Text)
  pub selling_price : ℕ
  pub mrp : Option ℤ
  pub discount_percent : Option ℤ
  pub stock : ℤ
  pub sku : Option Text

-- A number that is neither NaN nor negative.
abbrev pub nonneg : Number → Option ℕ
nonneg nan = none
nonneg (fin (pos n)) = some n
nonneg (fin (negsuc _)) = none

-- `x != null && !Number.isNaN(x) ? x : undefined`
abbrev pub unless_nan : Option Number → Option ℤ
unless_nan (some (fin q)) = some q
unless_nan _ = none

-- `s || undefined`
abbrev pub unless_empty : Text → Option Text
unless_empty [] = none
unless_empty (c ∷ s) = some (c ∷ s)

abbrev pub trimmed_sku : Option Text → Option Text
trimmed_sku none = none
trimmed_sku (some s) = unless_empty (trim s)

module _ (js : Conversions) where
  -- `valsRaw.map((x) => String(x).trim()).filter(Boolean)`
  unfoldable pub parse_values : Values → List Text
  parse_values nil = []
  parse_values (cons v vs) =
      let s = trim (to_text js v) in
      let rest = parse_values vs in if is_empty s then rest else s ∷ rest

  abbrev pub value_list : Option Value → List Text
  value_list (some (arr vs)) = parse_values vs
  value_list _ = []

  abbrev pub parse_option : Value → Option VariantOption
  parse_option (obj o) =
      let name = trim (to_text_or_empty js (get (codes "optionName") o)) in
      let values = value_list (get (codes "optionValues") o) in
      if is_empty name || is_empty values
      then none
      else some (record { option_name = name; option_values = values })
  parse_option _ = none

  unfoldable pub option_rows : Values → List VariantOption
  option_rows nil = []
  option_rows (cons v vs) = elim (parse_option v) [
    | none ↦ option_rows vs
    | some o ↦ o ∷ option_rows vs
  ]

  abbrev pub options_of : Option Value → List VariantOption
  options_of (some (arr vs)) = option_rows vs
  options_of _ = []

  unfoldable pub parse_options : Value → List VariantOption
  parse_options (obj raw) = options_of (get (codes "options") raw)
  parse_options _ = []

  -- `selection[k] = String(v)` for each entry
  unfoldable pub parse_entries : Fields → List (Text × Text)
  parse_entries end = []
  parse_entries (field k v fs) = (k, to_text js v) ∷ parse_entries fs

  abbrev pub parse_selection : Option Value → List (Text × Text)
  parse_selection (some (obj fs)) = parse_entries fs
  parse_selection _ = []

  abbrev pub item_row : Fields → Text → Text → ℕ → ℕ → VariantItem
  item_row row id label price stock = record {
    id = id;
    label = label;
    selection = parse_selection (get (codes "selection") row);
    selling_price = price;
    mrp = unless_nan (number_if_given js (get (codes "mrp") row));
    discount_percent = unless_nan (number_if_given js (get (codes "discountPercent") row));
    stock = pos (stock / 100);
    sku = trimmed_sku (text_if_given js (get (codes "sku") row));
  }

  -- The body of the loop of `parseVariantItems`; `none` is `continue`.
  unfoldable pub parse_item : Value → Option VariantItem
  parse_item (obj row) =
      let id = trim (to_text_or_empty js (get (codes "id") row)) in
      let label = trim (to_text_or_empty js (get (codes "label") row)) in
      if is_empty id || is_empty label
      then none
      else elim (nonneg (to_number js (get (codes "sellingPrice") row))) [
        | none ↦ none
        | some price ↦ elim (nonneg (to_number js (get (codes "stock") row))) [
          | none ↦ none
          | some stock ↦ some (item_row row id label price stock)
        ]
      ]
  parse_item _ = none

  unfoldable pub item_rows : Values → List VariantItem
  item_rows nil = []
  item_rows (cons v vs) = elim (parse_item v) [ none ↦ item_rows vs | some i ↦ i ∷ item_rows vs ]

  abbrev pub items_of : Option Value → List VariantItem
  items_of (some (arr vs)) = item_rows vs
  items_of _ = []

  unfoldable pub parse_items : Value → List VariantItem
  parse_items (obj raw) = items_of (get (codes "items") raw)
  parse_items _ = []
