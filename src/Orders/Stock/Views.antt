-- ===== src/Orders/Stock/Views.antt =====
-- The stock of a product or variant as one number, and what a list of moves adds to it.
use vybekart_backend.Shared.{
  ◌≡◌, Bool, true, false, Option, none, some, List, [], ◌∷◌, map, arith, ◌==◌, if◌then◌else◌,
}
use vybekart_backend.Shared.Int.{ℤ, pos, ◌+ℤ◌, int_laws, +ℤ_interchange, +ℤ_zero, sub-add}
use vybekart_backend.Shared.Text.{Text, text_eq}
use vybekart_backend.Json.{Conversions}
use vybekart_backend.Variants.Stock.{has_items}
use vybekart_backend.Variants.Delta.{stock_of}
use vybekart_backend.Data.{World, Uuid, Product}
use vybekart_backend.Data.Orders.{OrderItem}
use vybekart_backend.Orders.Lookup.{product_row}
use vybekart_backend.Orders.Stock.{StockMove, counted_variant, taken, given_back}

-- Whether a product counts its stock by variants.
abbrev pub by_variants : Conversions → Option Product → Bool
by_variants js none = false
by_variants js (some p) = has_items js p.variants

-- The stock of the variant, for a product that counts by variants, and otherwise of the product.
abbrev pub stock_within : Conversions → Option Product → Text → Option ℤ
stock_within js none u = none
stock_within js (some p) u =
    if has_items js p.variants then stock_of js p.variants u else some p.stock

abbrev pub on_hand : Conversions → World → Uuid → Text → Option ℤ
on_hand js w k u = stock_within js (product_row k w) u

-- Whether a move's variant is `u`.
abbrev pub names_variant : Option Text → Text → Bool
names_variant none u = false
names_variant (some v) u = text_eq v u

-- What a move adds to the stock of variant `u` of product `k`; `split` tells whether the product
-- counts by variants.
abbrev pub share : Bool → Uuid → Text → StockMove → ℤ
share split k u m =
    if m.product_id == k
    then if split
      then if names_variant (counted_variant true m.variant_id) u then m.delta else pos 0
      else m.delta
    else pos 0

abbrev pub sum_shares : Bool → Uuid → Text → List StockMove → ℤ
sum_shares split k u [] = pos 0
sum_shares split k u (m ∷ ms) = share split k u m +ℤ sum_shares split k u ms

abbrev pub plus : ℤ → Option ℤ → Option ℤ
plus d none = none
plus d (some n) = some (n +ℤ d)

share_cancel :
    (split : Bool) (k : Uuid) (u : Text) (i : OrderItem)
    → share split k u (taken i) +ℤ share split k u (given_back i) ≡ pos 0
share_cancel split k u i = ground (arith, +ℤ_zero (pos 0), sub-add (pos 0) (pos i.quantity))

-- Giving back cancels taking.
pub sum_shares_cancel :
    (split : Bool) (k : Uuid) (u : Text) (is : List OrderItem)
    → sum_shares split k u (map taken is) +ℤ sum_shares split k u (map given_back is) ≡ pos 0
sum_shares_cancel split k u [] = omega int_laws
sum_shares_cancel split k u (i ∷ is) =
    rw
      (
        +ℤ_interchange (share split k u (taken i)) (sum_shares split k u (map taken is))
            (share split k u (given_back i)) (sum_shares split k u (map given_back is)),
        share_cancel split k u i,
        sum_shares_cancel split k u is,
      )
      (omega int_laws)
