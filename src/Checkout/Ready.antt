-- ===== src/Checkout/Ready.antt =====
-- `validateCartForCheckout` and `resolveShippingAddressOrThrow`.
use vybekart_backend.Shared.{not, ◌&&◌, Option, map, ◌==◌}
use vybekart_backend.Shared.Lists.{length, is_empty, find}
use vybekart_backend.Shared.Action.{
  Action, bad_request, pure, gets, required, throw_if, ◌>>=◌, ◌>>◌,
}
use vybekart_backend.Json.{Conversions}
use vybekart_backend.Data.{World, Uuid, Address}
use vybekart_backend.Orders.Lookup.{find_buyer}
use vybekart_backend.Orders.Validate.{OrderLine, validate_order_items}
use vybekart_backend.Cart.Expiry.{load_cart_for_user}
use vybekart_backend.Cart.View.{PricedItem, CartView, get_cart}

-- The lines of the cart, as `create` takes them.
abbrev pub line_of : PricedItem → OrderLine
line_of i = record {
  product_id = i.item.product_id;
  quantity = i.item.quantity;
  variant_id = i.item.variant_id;
  variant_label = i.item.variant_label;
}

unfoldable pub validate_cart_for_checkout : Conversions → Uuid → Action World (Unit {0})
unfolding load_cart_for_user get_cart find_buyer validate_order_items
validate_cart_for_checkout js u = do
  raw ← load_cart_for_user u
  throw_if (is_empty raw.items) (bad_request "Cart is empty")
  stream ←
      required raw.stream_id
        (bad_request "Checkout requires a live stream context. Add items from a live.")
  cart ← get_cart js u
  throw_if (is_empty cart.items) (bad_request "Cart is empty")
  throw_if (not (length cart.items == length raw.items)) (
      bad_request
        "One or more products in your cart are no longer available. Please update your cart.")
  find_buyer u
  validate_order_items js stream (map line_of cart.items)

-- `getCart` with the two checks that follow it wherever an order is at stake: the cart and the
-- stream that it was filled from.
unfoldable pub filled_cart : Conversions → Uuid → Action World (CartView × Uuid)
unfolding get_cart
filled_cart js u = do
  cart ← get_cart js u
  throw_if (is_empty cart.items) (bad_request "Cart is empty")
  stream ←
      required cart.stream_id
        (bad_request "Checkout requires a live stream context. Add items from a live.")
  pure (cart, stream)

abbrev pub own_address : Uuid → Uuid → World → Option Address
own_address k u w = find (λ a. a.id == k && a.user_id == u) w.addresses

unfoldable pub resolve_shipping_address : Uuid → Option Uuid → Action World Address
resolve_shipping_address u k = do
  id ← required k (bad_request "Shipping address is required")
  found ← gets (own_address id u)
  required found (bad_request "Shipping address not found")
