-- ===== src/Payments/Verify.antt =====
-- `verifyAndCheckout`.
use vybekart_backend.Shared.{
  ℕ, Bool, false, not, ◌||◌, ◌&&◌, Option, none, some, ◌∷◌, leb, ◌==◌, is_some,
}
use vybekart_backend.Shared.Lists.{filter, find, is_empty}
use vybekart_backend.Shared.Text.{Text}
use vybekart_backend.Shared.Action.{
  Action, ok, err, Exception, bad_request, service_unavailable, pure, throw, gets, required,
  throw_if, modify, ◌>>=◌, ◌>>◌,
}
use vybekart_backend.Json.{Conversions}
use vybekart_backend.Data.{World, Uuid}
use vybekart_backend.Data.Orders.{Order}
use vybekart_backend.Data.Carts.{
  PendingPayment, CheckoutFailure, RefundStatus, refunded, refund_failed,
}
use vybekart_backend.Orders.Carrier.{Carrier}
use vybekart_backend.Checkout.Place.{
  PaidBy, Placed, CheckoutRequest, to_checkout_response, checkout_from_cart,
}
use vybekart_backend.Payments.Gateway.{Gateway, verify_signature, attempt_refund}
use vybekart_backend.Payments.Collect.{other_payment}

-- `VerifyRazorpayPaymentDto`
pub record Payment : Type 0 where
  pub razorpay_order_id : Uuid
  pub razorpay_payment_id : Uuid
  pub razorpay_signature : Text

abbrev pub paid_with : Uuid → Option Uuid → Bool
paid_with k none = false
paid_with k (some p) = p == k

-- `order.findFirst({ where: { razorpayPaymentId } })`
abbrev pub order_paid_by : Uuid → World → Option Order
order_paid_by k w = find (λ o. paid_with k o.razorpay_payment_id) w.orders

-- `paymentCheckoutFailure.findUnique({ where: { razorpayPaymentId } })`
abbrev pub failure_of : Uuid → World → Option CheckoutFailure
failure_of k w = find (λ f. f.razorpay_payment_id == k) w.failures

-- `redis.get(this.pendingKey(id))`
abbrev pub pending_payment : Uuid → World → Option PendingPayment
pending_payment k w = find (λ p. p.razorpay_order_id == k && not (leb p.expires w.now)) w.pendings

abbrev pub drop_pending : Uuid → Action World (Unit {0})
drop_pending k = modify (λ w. record w { pendings = filter (other_payment k) w.pendings })

abbrev pub refusal : RefundStatus → Exception
refusal refunded =
    bad_request
      "Your payment was refunded automatically because the order could not be completed. The refund should appear in 5–7 business days."
refusal refund_failed =
    bad_request
      "We could not complete your order for this payment. Please contact support with payment ID"

abbrev pub apology : RefundStatus → Exception
apology refunded =
    bad_request
      "Payment received but we could not place your order. A full refund has been initiated and should reflect in 5–7 business days."
apology refund_failed =
    bad_request
      "Payment received but we could not place your order. Our team will process a refund shortly — contact support with payment ID"

-- `recordCheckoutFailure`, less the reason and the id of the refund
abbrev pub failure_row : Uuid → Payment → ℕ → RefundStatus → CheckoutFailure
failure_row u d amount status = record {
  user_id = u;
  razorpay_order_id = d.razorpay_order_id;
  razorpay_payment_id = d.razorpay_payment_id;
  amount_paise = amount;
  refund_status = status;
}

abbrev pub record_failure : CheckoutFailure → Action World (Unit {0})
record_failure f = modify (λ w. record w { failures = f ∷ w.failures })

-- The `catch` after a payment that was taken.
abbrev pub give_back : Gateway → Uuid → Payment → PendingPayment → Action World Placed
give_back g u d p = do
  status ← attempt_refund g d.razorpay_payment_id p.amount_paise
  record_failure (failure_row u d p.amount_paise status)
  throw (apology status)

-- `try { … } catch { … }`
abbrev pub or_else : {A : Type 0} → Action World A → Action World A → Action World A
or_else m k w = let (r, t) = m w in elim r [ ok a ↦ (ok a, t) | err e ↦ k t ]

abbrev pub paid_by : Payment → PendingPayment → PaidBy
paid_by d p = record {
  razorpay_order_id = d.razorpay_order_id;
  razorpay_payment_id = d.razorpay_payment_id;
  delivery_fee = p.delivery_fee;
  delivery_provider = p.delivery_provider;
}

abbrev pub request_of : PendingPayment → CheckoutRequest
request_of p = record { address_id = p.address_id; shipping_address = some p.shipping_address }

module _ (js : Conversions) (c : Carrier) (g : Gateway) (direct : Bool) where
  -- The checkout of a payment that is good.
  unfoldable pub complete : Uuid → Payment → PendingPayment → Action World Placed
  unfolding checkout_from_cart
  complete u d p =
      or_else
        (do
          placed ← checkout_from_cart js c direct u (request_of p) (some (paid_by d p))
          drop_pending d.razorpay_order_id
          pure placed)
        (give_back g u d p)

  -- From the point where neither an order nor a failure is known for the payment.
  unfoldable pub collect : Uuid → Payment → Action World Placed
  unfolding complete
  collect u d = do
    p ←
        required (← gets (pending_payment d.razorpay_order_id))
          (bad_request "Payment session expired or invalid. Please try checkout again.")
    throw_if (not (p.user_id == u)) (bad_request "Payment does not belong to this account")
    throw_if (not (is_some p.address_id) || is_empty p.shipping_address)
        (bad_request "Payment session is missing address. Please checkout again.")
    complete u d p

  unfoldable pub unless_failed : Uuid → Payment → Option CheckoutFailure → Action World Placed
  unfolding collect
  unless_failed u d none = collect u d
  unless_failed u d (some f) = throw (refusal f.refund_status)

  unfoldable pub unless_placed : Uuid → Payment → Option Order → Action World Placed
  unfolding unless_failed
  unless_placed u d (some o) = pure (to_checkout_response o)
  unless_placed u d none = do f ← gets (failure_of d.razorpay_payment_id); unless_failed u d f

  unfoldable pub verify_and_checkout : Uuid → Payment → Action World Placed
  unfolding verify_signature unless_placed
  verify_and_checkout u d = do
    throw_if (not g.configured) (service_unavailable "Razorpay is not configured on the server")
    verify_signature g d.razorpay_order_id d.razorpay_payment_id d.razorpay_signature
    existing ← gets (order_paid_by d.razorpay_payment_id)
    unless_placed u d existing
