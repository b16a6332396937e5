-- ===== src/Orders/Create.antt =====
-- `create`: an order from a list of lines, with its prices and its total, and the stock it takes.
pub mod Totals
use vybekart_backend.Shared.{
  ℕ, suc, ◌+◌, ◌*◌, Option, none, some, List, [], ◌∷◌, map, if◌then◌else◌, ◌otherwise◌,
}
use vybekart_backend.Shared.Lists.{length, is_empty}
use vybekart_backend.Shared.Text.{Text, trim}
use vybekart_backend.Shared.Action.{
  Action, bad_request, internal, pure, gets, required, throw_if, modify, transaction, ◌>>=◌, ◌>>◌,
}
use vybekart_backend.Json.{Conversions}
use vybekart_backend.Variants.Parse.{VariantItem}
use vybekart_backend.Variants.Stock.{has_items, find_item}
use vybekart_backend.Data.{World, Uuid, Product}
use vybekart_backend.Data.Orders.{Order, OrderItem, pending}
use vybekart_backend.Orders.Lookup.{product_row, order_row, find_buyer}
use vybekart_backend.Orders.Stock.{move_all, taken}
use vybekart_backend.Orders.Validate.{OrderLine, validate_order_items}

-- `s?.trim() ?? null`
abbrev pub trimmed : Option Text → Option Text
trimmed none = none
trimmed (some s) = some (trim s)

abbrev pub priced : OrderLine → Uuid → ℕ → Option Text → OrderItem
priced l id price label = record {
  id = id;
  product_id = l.product_id;
  quantity = l.quantity;
  price = price;
  variant_id = trimmed l.variant_id;
  variant_label = label;
}

abbrev pub variant_line : OrderLine → Uuid → Option VariantItem → Option OrderItem
variant_line l id none = none
variant_line l id (some v) = some (priced l id v.selling_price (some v.label))

module _ (js : Conversions) where
  -- The row of one line, with the id `id`; `none` is a TypeError.
  abbrev pub price_line : OrderLine → Uuid → Option Product → Option OrderItem
  price_line l id none = none
  price_line l id (some p) =
      if has_items js p.variants
      then variant_line l id (find_item js p.variants (l.variant_id otherwise []))
      else some (priced l id p.price (trimmed l.variant_label))

  -- The rows of all lines; their ids count up from `id`.
  unfoldable pub price_lines : List OrderLine → Uuid → Action World (List OrderItem)
  price_lines [] id = pure []
  price_lines (l ∷ ls) id = do
    p ← gets (product_row l.product_id)
    i ← required (price_line l id p) internal
    rest ← price_lines ls (suc id)
    pure (i ∷ rest)

-- `totalAmount += linePrice * item.quantity`
unfoldable pub total_from : ℕ → List OrderItem → ℕ
total_from acc [] = acc
total_from acc (i ∷ is) = total_from (acc + i.price * i.quantity) is

unfoldable pub new_order : Uuid → Uuid → Uuid → Option Text → List OrderItem → Order
unfolding total_from
new_order id buyer stream address is = record {
  id = id;
  buyer_id = some buyer;
  stream_id = some stream;
  shipping_address = address;
  status = pending;
  total_amount = total_from 0 is;
  delivery_fee = 0;
  delivery_provider = none;
  tracking_id = none;
  tracking_url = none;
  carrier_name = none;
  delivery_status = none;
  partner_status = none;
  packing_video_url = none;
  packed_at = none;
  shipped_at = none;
  delivered_at = none;
  razorpay_order_id = none;
  razorpay_payment_id = none;
  items = is;
}

abbrev pub insert_order : Order → Action World (Unit {0})
insert_order o =
    modify (λ w. record w { orders = o ∷ w.orders; fresh = w.fresh + 1 + length o.items })

-- The transaction of `create`.
unfoldable pub place : Conversions → Order → Action World Uuid
unfolding move_all
place js o = do insert_order o; move_all js (map taken o.items); pure o.id

abbrev pub created_row : Uuid → Action World Order
created_row k = do found ← gets (order_row k); required found internal

unfoldable pub create :
    Conversions → Option Uuid → Option Text → List OrderLine → Uuid → Action World Order
unfolding find_buyer validate_order_items price_lines place new_order
create js stream_id address ls u = do
  b ← find_buyer u
  throw_if (is_empty ls) (bad_request "Order must have at least one item")
  stream ←
      required stream_id
        (bad_request "Orders are only allowed from a live stream (streamId is required).")
  validate_order_items js stream ls
  id ← gets (λ w. w.fresh)
  is ← price_lines js ls (suc id)
  placed ← transaction (place js (new_order id b.id stream address is))
  created_row placed
