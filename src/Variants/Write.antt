-- ===== src/Variants/Write.antt =====
-- The JSON that `validateAndNormalizeSellerVariants` and `applyVariantStockDelta` build.
use vybekart_backend.Shared.{Option, none, some, List, [], ◌∷◌}
use vybekart_backend.Shared.Int.{ℤ, pos}
use vybekart_backend.Shared.Text.{Text, codes}
use vybekart_backend.Json.{fin, Value, Fields, end, field, num, str, arr, obj, of_list, whole}
use vybekart_backend.Variants.Parse.{VariantOption, VariantItem}

-- `...(x != null ? { k: x } : {})`
abbrev pub if_given : Text → Option ℤ → Fields → Fields
if_given k none fs = fs
if_given k (some q) fs = field k (num (fin q)) fs

-- `...(s ? { k: s } : {})`
abbrev pub if_text : Text → Option Text → Fields → Fields
if_text k none fs = fs
if_text k (some []) fs = fs
if_text k (some (c ∷ s)) fs = field k (str (c ∷ s)) fs

unfoldable pub write_entries : List (Text × Text) → Fields
write_entries [] = end
write_entries ((k, v) ∷ es) = field k (str v) (write_entries es)

abbrev pub item_fields : VariantItem → Fields
item_fields i = field (codes "id") (str i.id) (
    field (codes "label") (str i.label) (
      field (codes "selection") (obj (write_entries i.selection)) (
        field (codes "sellingPrice") (num (fin (pos i.selling_price))) (
          if_given (codes "mrp") i.mrp (
            if_given (codes "discountPercent") i.discount_percent
              (field (codes "stock") (num (whole i.stock)) (if_text (codes "sku") i.sku end)))))))

unfoldable pub write_item : VariantItem → Value
write_item i = obj (item_fields i)

unfoldable pub write_option : VariantOption → Value
write_option o = obj (
    field (codes "optionName") (str o.option_name)
      (field (codes "optionValues") (arr (of_list str o.option_values)) end))

unfoldable pub write_variants : List VariantOption → List VariantItem → Value
unfolding write_item write_option
write_variants options items = obj (
    field (codes "options") (arr (of_list write_option options))
      (field (codes "items") (arr (of_list write_item items)) end))
