-- ===== src/Checkout/Quote.antt =====
-- `getDeliveryQuoteFromCart`, and `prepareCheckoutForPayment`, which asks for it.
use vybekart_backend.Shared.{
  ℕ, ◌+◌, ◌||◌, Option, none, some, [], ◌otherwise◌, ◌or◌, ◌==◌, if◌then◌else◌,
}
use vybekart_backend.Shared.Lists.{length, is_empty}
use vybekart_backend.Shared.Text.{Text, codes, trim}
use vybekart_backend.Shared.Action.{
  Action, ok, err, bad_request, pure, gets, required, throw_if, ◌>>=◌, ◌>>◌,
}
use vybekart_backend.Json.{Conversions}
use vybekart_backend.Data.{World, Uuid, User, Seller}
use vybekart_backend.Data.Table.{row}
use vybekart_backend.Orders.Carrier.{Carrier}
use vybekart_backend.Orders.Packing.{pickup_address, weight_for, phone_of}
use vybekart_backend.Orders.Validate.{stream_row}
use vybekart_backend.Checkout.Ready.{
  validate_cart_for_checkout, filled_cart, own_address, resolve_shipping_address,
}

pub record Quote : Type 0 where
  pub provider : Option Text
  pub fee : ℕ

abbrev pub delhivery : Option Text
delhivery = some (codes "DELHIVERY")

-- The quote for the pins; without a pin there is none to ask for, and without an answer the fee is
-- waived.
abbrev pub quote_between : Carrier → ℕ → Text → Text → Quote
quote_between c weight from to =
    if is_empty from || is_empty to
    then (record { provider = (if c.configured then delhivery else none); fee = 0 })
    else elim (c.shipping_cost from to weight) [
      | none ↦ record { provider = none; fee = 0 }
      | some fee ↦ record { provider = delhivery; fee = fee }
    ]

abbrev pub user_row : Uuid → World → Option User
user_row u w = row (λ x. x.id) u w.users

abbrev pub seller_by_id : Uuid → World → Option Seller
seller_by_id k w = row (λ s. s.id) k w.sellers

unfoldable pub get_delivery_quote : Conversions → Carrier → Uuid → Uuid → Action World Quote
unfolding filled_cart
get_delivery_quote js c u address = do
  cart ← filled_cart js u
  drop ← required (← gets (own_address address u)) (bad_request "Shipping address not found")
  stream ← required (← gets (stream_row cart.1)) (bad_request "Stream not found")
  seller ← required (← gets (seller_by_id stream.seller_id)) (bad_request "Stream seller not found")
  pickup ←
      required (← gets (pickup_address seller.user_id))
        (bad_request "Seller pickup address is missing. Please update store pickup address.")
  contact ← gets (user_row seller.user_id)
  required (phone_of contact) (bad_request "Seller phone is missing for pickup contact")
  buyer ← gets (user_row u)
  required (phone_of buyer or drop.phone) (bad_request "Buyer phone is missing")
  pure (
      quote_between c (weight_for (length cart.0.items)) (trim (pickup.zip otherwise []))
        (trim (drop.zip otherwise [])))

-- The quote, where an exception other than a bad request counts as no fee.
abbrev pub quote_or_none : Action World Quote → Action World Quote
quote_or_none m w =
    let (r, t) = m w in
    elim r [
      | ok q ↦ (ok q, t)
      | err e ↦ elim e [
        | bad_request s ↦ (err (bad_request s), t)
        | _ ↦ (ok (record { provider = none; fee = 0 }), t)
      ]
    ]

pub record Prepared : Type 0 where
  pub subtotal : ℕ
  pub delivery_fee : ℕ
  pub total : ℕ
  pub stream_id : Uuid
  pub shipping_address : Text
  pub delivery_provider : Option Text

abbrev pub prepared_of : ℕ → Quote → Uuid → Text → Prepared
prepared_of subtotal q stream address = record {
  subtotal = subtotal;
  delivery_fee = q.fee;
  total = subtotal + q.fee;
  stream_id = stream;
  shipping_address = address;
  delivery_provider = q.provider;
}

unfoldable pub prepare_checkout : Conversions → Carrier → Uuid → Uuid → Action World Prepared
unfolding validate_cart_for_checkout filled_cart resolve_shipping_address get_delivery_quote
prepare_checkout js c u address = do
  validate_cart_for_checkout js u
  cart ← filled_cart js u
  a ← resolve_shipping_address u (some address)
  q ← quote_or_none (get_delivery_quote js c u address)
  throw_if (cart.0.subtotal + q.fee == 0) (bad_request "Cart total must be greater than zero")
  pure (prepared_of cart.0.subtotal q cart.1 a.formatted)
