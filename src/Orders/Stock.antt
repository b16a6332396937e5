-- ===== src/Orders/Stock.antt =====
-- The stock that an order moves: the loops over its lines in the transactions of `create` and of
-- `cancelOrder`, which differ in the sign only.
pub mod Views
pub mod Effects
pub mod Totals
pub mod Column
pub mod Restore
use vybekart_backend.Shared.{
  ℕ, Bool, true, false, Option, none, some, List, [], ◌∷◌, map, if◌then◌else◌,
}
use vybekart_backend.Shared.Int.{ℤ, pos, ◌+ℤ◌, ◌-ℤ◌}
use vybekart_backend.Shared.Text.{Text}
use vybekart_backend.Shared.Action.{Action, Result, pure, of_result, modify, ◌>>=◌, ◌>>◌}
use vybekart_backend.Json.{Value, Conversions}
use vybekart_backend.Variants.Stock.{has_items, apply_stock_delta}
use vybekart_backend.Data.{World, Uuid, Product}
use vybekart_backend.Data.Orders.{OrderItem}
use vybekart_backend.Data.Table.{update}
use vybekart_backend.Orders.Lookup.{product_row}

pub record StockMove : Type 0 where
  pub product_id : Uuid
  pub variant_id : Option Text
  pub delta : ℤ

-- `row.variantId && productHasVariantItems(p.variants)`: the variant that is counted, if one is.
abbrev pub counted_variant : Bool → Option Text → Option Text
counted_variant false v = none
counted_variant true none = none
counted_variant true (some []) = none
counted_variant true (some (c ∷ s)) = some (c ∷ s)

abbrev pub update_product : Uuid → (Product → Product) → Action World (Unit {0})
update_product k f = modify (λ w. record w { products = update (λ p. p.id) k f w.products })

-- `const { variants, totalStock } = …; await tx.product.update(…)`
abbrev pub write_column : Uuid → Result (Value × ℤ) → Action World (Unit {0})
write_column k r = do
  written ← of_result r
  update_product k (λ p. record p { variants = written.0; stock = written.1 })

module _ (js : Conversions) where
  abbrev pub move_in_product : StockMove → Product → Option Text → Action World (Unit {0})
  move_in_product m p none =
      update_product m.product_id (λ q. record q { stock = q.stock +ℤ m.delta })
  move_in_product m p (some v) =
      write_column m.product_id (apply_stock_delta js p.variants v m.delta)

  abbrev pub move_if_found : StockMove → Option Product → Action World (Unit {0})
  move_if_found m none = pure tt
  move_if_found m (some p) =
      move_in_product m p (counted_variant (has_items js p.variants) m.variant_id)

  -- The body of the loop.
  unfoldable pub move_stock : StockMove → Action World (Unit {0})
  move_stock m w = move_if_found m (product_row m.product_id w) w

  unfoldable pub move_all : List StockMove → Action World (Unit {0})
  unfolding move_stock
  move_all [] = pure tt
  move_all (m ∷ ms) = do move_stock m; move_all ms

-- `-row.quantity` of each line, and `item.quantity` of each line
abbrev pub taken : OrderItem → StockMove
taken i = record {
  product_id = i.product_id;
  variant_id = i.variant_id;
  delta = pos 0 -ℤ pos i.quantity;
}

abbrev pub given_back : OrderItem → StockMove
given_back i = record {
  product_id = i.product_id;
  variant_id = i.variant_id;
  delta = pos i.quantity;
}
