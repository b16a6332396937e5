-- ===== src/Variants/Stock.antt =====
-- `findVariantItem`, `productHasVariantItems` and `applyVariantStockDelta`.
use vybekart_backend.Shared.{Bool, not, Option, none, some, List, [], ◌∷◌, if◌then◌else◌}
use vybekart_backend.Shared.Lists.{is_empty, find}
use vybekart_backend.Shared.Int.{ℤ, pos, ◌+ℤ◌, ltb_ℤ}
use vybekart_backend.Shared.Text.{Text, text_eq}
use vybekart_backend.Shared.Action.{Result, ok, err, bad_request}
use vybekart_backend.Json.{Value, Conversions}
use vybekart_backend.Variants.Parse.{VariantItem, parse_options, parse_items}
use vybekart_backend.Variants.Write.{write_variants}

abbrev pub has_id : Text → VariantItem → Bool
has_id v i = text_eq i.id v

-- `items.reduce((s, it) => s + it.stock, 0)`
unfoldable pub total_stock : List VariantItem → ℤ
total_stock [] = pos 0
total_stock (i ∷ is) = i.stock +ℤ total_stock is

abbrev pub add_stock : ℤ → VariantItem → VariantItem
add_stock delta i = record i { stock = i.stock +ℤ delta }

-- The change of the first item with this id, on the parsed items: `none` if there is none, and
-- otherwise the items after the change with the changed one.
unfoldable pub change_first : Text → ℤ → List VariantItem → Option (List VariantItem × VariantItem)
change_first v delta [] = none
change_first v delta (i ∷ is) =
    let rest = change_first v delta is in
    if has_id v i
    then some (add_stock delta i ∷ is, add_stock delta i)
    else elim rest [ none ↦ none | some (js, j) ↦ some (i ∷ js, j) ]

module _ (js : Conversions) where
  unfoldable pub find_item : Value → Text → Option VariantItem
  find_item variants v = find (has_id v) (parse_items js variants)

  unfoldable pub has_items : Value → Bool
  has_items variants = not (is_empty (parse_items js variants))

  -- The new value of the column, and the total of the stocks.
  unfoldable pub apply_stock_delta : Value → Text → ℤ → Result (Value × ℤ)
  unfolding change_first total_stock
  apply_stock_delta variants v delta = elim (change_first v delta (parse_items js variants)) [
    | none ↦ err (bad_request "Invalid variant")
    | some (next, changed) ↦
        if ltb_ℤ changed.stock (pos 0)
        then err (bad_request "Insufficient stock for this variant")
        else ok (write_variants (parse_options js variants) next, total_stock next)
  ]
