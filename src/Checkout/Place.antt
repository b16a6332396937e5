-- ===== src/Checkout/Place.antt =====
-- `checkoutFromCart`.
use vybekart_backend.Shared.{
  ℕ, ◌+◌, Bool, not, ◌||◌, ◌&&◌, Option, none, some, map, ltb, is_some, ◌otherwise◌, ◌or◌,
  if◌then◌else◌,
}
use vybekart_backend.Shared.Text.{Text, codes}
use vybekart_backend.Shared.Action.{
  Action, ok, err, bad_request, pure, throw_if, required, ◌>>=◌, ◌>>◌,
}
use vybekart_backend.Json.{Conversions}
use vybekart_backend.Data.{World, Uuid}
use vybekart_backend.Data.Orders.{Order, OrderStatus, paid}
use vybekart_backend.Orders.Lookup.{update_order}
use vybekart_backend.Orders.Create.{create}
use vybekart_backend.Orders.Carrier.{Carrier}
use vybekart_backend.Orders.Packing.{unless_blank}
use vybekart_backend.Cart.Redis.{clear_cart}
use vybekart_backend.Checkout.Ready.{
  line_of, validate_cart_for_checkout, filled_cart, resolve_shipping_address,
}
use vybekart_backend.Checkout.Quote.{Quote, get_delivery_quote}

-- `CheckoutOrderDto`, less the name of the payment method, which is only sent back.
pub record CheckoutRequest : Type 0 where
  pub address_id : Option Uuid
  pub shipping_address : Option Text

-- The options of a call with `markPaid`; the other call has none.
pub record PaidBy : Type 0 where
  pub razorpay_order_id : Uuid
  pub razorpay_payment_id : Uuid
  pub delivery_fee : ℕ
  pub delivery_provider : Option Text

pub record Placed : Type 0 where
  pub order_id : Uuid
  pub status : OrderStatus
  pub total_amount : ℕ
  pub delivery_fee : ℕ
  pub shipping_address : Text

-- `toCheckoutResponse`
abbrev pub to_checkout_response : Order → Placed
to_checkout_response o = record {
  order_id = o.id;
  status = o.status;
  total_amount = o.total_amount;
  delivery_fee = o.delivery_fee;
  shipping_address = o.shipping_address otherwise codes "";
}

-- The address of the order: the one on file, or else the text of the request.
abbrev pub address_for : Uuid → CheckoutRequest → Action World Text
unfolding resolve_shipping_address
address_for u d = elim d.address_id [
  | some k ↦ (do a ← resolve_shipping_address u (some k); pure a.formatted)
  | none ↦ (do
    required (unless_blank d.shipping_address) (bad_request "Shipping address is required")
    pure (d.shipping_address otherwise codes ""))
]

-- `.catch(() => null)`
abbrev pub caught : {A : Type 0} → Action World A → Action World (Option A)
caught m w = let (r, t) = m w in elim r [ ok a ↦ (ok (some a), t) | err e ↦ (ok none, t) ]

-- The fee and the provider: those of the payment, or of a quote if there is an address for one.
abbrev pub fee_for :
    Conversions → Carrier → Uuid → CheckoutRequest → Option PaidBy → Action World (Option Quote)
unfolding get_delivery_quote
fee_for js c u d (some p) =
    pure (some (record { provider = p.delivery_provider; fee = p.delivery_fee }))
fee_for js c u d none = elim d.address_id [
  | none ↦ pure none
  | some k ↦ caught (get_delivery_quote js c u k)
]

abbrev pub fee_of : Option Quote → ℕ
fee_of none = 0
fee_of (some q) = q.fee

abbrev pub provider_of : Option Quote → Option Text
provider_of none = none
provider_of (some q) = q.provider

-- `updateData`, in its two parts.
abbrev pub with_fee : Option Quote → ℕ → Order → Order
with_fee q total r =
    if ltb 0 (fee_of q)
    then record r {
      delivery_fee = fee_of q;
      delivery_provider = provider_of q or r.delivery_provider;
      total_amount = total + fee_of q;
    }
    else r

abbrev pub with_payment : Option PaidBy → Order → Order
with_payment none r = r
with_payment (some p) r = record r {
  status = paid;
  razorpay_order_id = some p.razorpay_order_id;
  razorpay_payment_id = some p.razorpay_payment_id;
}

-- The update is left out if it would write nothing.
unfoldable pub settle : Option Quote → Option PaidBy → Order → Action World Order
unfolding update_order
settle q p o =
    if ltb 0 (fee_of q) || is_some p
    then update_order o.id (λ r. with_payment p (with_fee q o.total_amount r))
    else pure o

abbrev pub placed_of : Order → Option Quote → Text → Placed
placed_of o q address = record {
  order_id = o.id;
  status = o.status;
  total_amount = o.total_amount;
  delivery_fee = fee_of q;
  shipping_address = address;
}

-- `direct` tells whether PAYMENTS_ALLOW_DIRECT_CHECKOUT is set.
unfoldable pub checkout_from_cart :
    Conversions → Carrier → Bool → Uuid → CheckoutRequest → Option PaidBy → Action World Placed
unfolding validate_cart_for_checkout filled_cart resolve_shipping_address get_delivery_quote create
    settle clear_cart
checkout_from_cart js c direct u d p = do
  throw_if (not (is_some p) && not direct)
      (bad_request "Please complete payment via Razorpay to place your order.")
  validate_cart_for_checkout js u
  cart ← filled_cart js u
  address ← address_for u d
  q ← fee_for js c u d p
  o ← create js (some cart.1) (some address) (map line_of cart.0.items) u
  r ← settle q p o
  clear_cart u (some cart.1)
  pure (placed_of r q address)
