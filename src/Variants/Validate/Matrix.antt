-- ===== src/Variants/Validate/Matrix.antt =====
-- What `validateAndNormalizeSellerVariants` guarantees of the combinations themselves.
use vybekart_backend.Shared.{◌≡◌, true, none, some, List}
use vybekart_backend.Shared.Lists.{length, All, any}
use vybekart_backend.Shared.Action.{ok}
use vybekart_backend.Json.{Value, Conversions}
use vybekart_backend.Variants.Parse.{VariantOption, VariantItem, parse_options, parse_items}
use vybekart_backend.Variants.Write.{write_variants}
use vybekart_backend.Variants.Stock.{total_stock}
use vybekart_backend.Variants.Validate.{combinations, NormalizedVariants, names_of, validate}
use vybekart_backend.Variants.Validate.Loop.{AllDistinct, ids_of, IsLeast}
use vybekart_backend.Variants.Validate.Keys.{
  IsPlain, IsPlainOption, agrees, combinations-IsPlain, agrees-combinations,
}
use vybekart_backend.Variants.Validate.Covers.{validate-HoldsKeys}

-- The items are the matrix of the options: as many as there are combinations, each with its own id,
-- and for every combination one that chooses its value for every option.
pub record IsMatrix (os : List VariantOption) (is : List VariantItem) (n : NormalizedVariants)
    : Type 0 where
  pub as_many : length is ≡ length (combinations os)
  pub ids_distinct : AllDistinct (ids_of is)
  pub covers : All (λ c. any (λ i. agrees (names_of os) i.selection c) is ≡ true) (combinations os)
  pub written : n.json ≡ write_variants os is
  pub totals : n.total_stock ≡ total_stock is
  pub cheapest : IsLeast none is (some n.min_price)

-- When a payload is accepted in which no option value and no value of an item's selection has the
-- sign `|`, then every combination of the option values is that of an item, there are as many items as
-- combinations, no two items share an id, the stored JSON lists the parsed options and items, the
-- stock is the sum of the items' and the price is the least of the items'. Prices are finite.
pub validate-IsMatrix :
    (js : Conversions) (v : Value) (n : NormalizedVariants)
    → All IsPlainOption (parse_options js v)
    → All (λ i. IsPlain i.selection) (parse_items js v)
    → validate js (some v) ≡ ok n
    → IsMatrix (parse_options js v) (parse_items js v) n
validate-IsMatrix js v n plain_options plain_items h =
    let os = parse_options js v in
    let keys = validate-HoldsKeys js v n h in
    record {
      as_many = keys.as_many;
      ids_distinct = keys.ids_distinct;
      covers =
          agrees-combinations (names_of os) (combinations os) (parse_items js v)
            (combinations-IsPlain os plain_options) plain_items keys.covers;
      written = keys.written;
      totals = keys.totals;
      cheapest = keys.cheapest;
    }
