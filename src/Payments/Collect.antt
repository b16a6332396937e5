-- ===== src/Payments/Collect.antt =====
-- `createRazorpayOrder`: a checkout that is waiting for its payment.
use vybekart_backend.Shared.{ℕ, ◌+◌, ◌*◌, Bool, not, some, ◌∷◌, ltb, ◌==◌}
use vybekart_backend.Shared.Lists.{filter}
use vybekart_backend.Shared.Action.{
  Action, bad_request, service_unavailable, internal, pure, gets, required, throw_if, modify, ◌>>=◌,
  ◌>>◌,
}
use vybekart_backend.Json.{Conversions}
use vybekart_backend.Data.{World, Uuid}
use vybekart_backend.Data.Carts.{PendingPayment}
use vybekart_backend.Orders.Carrier.{Carrier}
use vybekart_backend.Checkout.Quote.{Prepared, prepare_checkout}
use vybekart_backend.Payments.Gateway.{Gateway}

-- PENDING_TTL_SECONDS, in milliseconds
abbrev pub pending_ms : ℕ
pending_ms = 30 * 60 * 1000

-- What is sent back, less the fields that are copied from the configuration and from the user.
pub record Collection : Type 0 where
  pub razorpay_order_id : Uuid
  pub amount : ℕ
  pub subtotal : ℕ
  pub delivery_fee : ℕ
  pub total : ℕ

abbrev pub pending_of : Uuid → Uuid → Uuid → ℕ → Prepared → PendingPayment
pending_of order u address now p = record {
  razorpay_order_id = order;
  user_id = u;
  address_id = some address;
  shipping_address = p.shipping_address;
  amount_paise = p.total;
  subtotal = p.subtotal;
  delivery_fee = p.delivery_fee;
  delivery_provider = p.delivery_provider;
  stream_id = p.stream_id;
  expires = now + pending_ms;
}

abbrev pub other_payment : Uuid → PendingPayment → Bool
other_payment k p = not (p.razorpay_order_id == k)

-- `redis.set(this.pendingKey(id), …)`
abbrev pub store_pending : PendingPayment → Action World (Unit {0})
store_pending p =
    modify (λ w. record w { pendings = p ∷ filter (other_payment p.razorpay_order_id) w.pendings })

unfoldable pub create_razorpay_order :
    Conversions → Carrier → Gateway → Uuid → Uuid → Action World Collection
unfolding prepare_checkout
create_razorpay_order js c g u address = do
  throw_if (not g.configured) (service_unavailable "Razorpay is not configured on the server")
  prep ← prepare_checkout js c u address
  throw_if (ltb prep.total 100) (bad_request "Minimum payable amount is ₹1")
  order ← required (g.create_order prep.total) internal
  now ← gets (λ w. w.now)
  store_pending (pending_of order u address now prep)
  pure (record {
    razorpay_order_id = order;
    amount = prep.total;
    subtotal = prep.subtotal;
    delivery_fee = prep.delivery_fee;
    total = prep.total;
  })
