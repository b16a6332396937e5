-- ===== src/Payments/Settled/Returned.antt =====
-- A verification that returns leaves an order.
use vybekart_backend.Shared.{
  sym, ◌≡◌, ap, Bool, not, ◌||◌, Option, none, some, ◌==◌, is_some, Bool-cases, inl, inr,
}
use vybekart_backend.Shared.Lists.{is_empty}
use vybekart_backend.Shared.Action.{
  Action, Result, ok, err, bad_request, service_unavailable, pure, ◌>>=◌, ◌>>◌,
}
use vybekart_backend.Json.{Conversions}
use vybekart_backend.Data.{World, Uuid}
use vybekart_backend.Data.Orders.{Order}
use vybekart_backend.Data.Carts.{PendingPayment, CheckoutFailure}
use vybekart_backend.Orders.Carrier.{Carrier}
use vybekart_backend.Shared.Reads.{Reads, failed, found, gets-Reads, throw_if-Reads, required-Reads}
use vybekart_backend.Checkout.Place.{Placed, checkout_from_cart}
use vybekart_backend.Payments.Gateway.{Gateway}
use vybekart_backend.Payments.Settled.{Left, IsPlaced, checkout-Leaves}
use vybekart_backend.Payments.Gateway.{verify_signature-Reads}
use vybekart_backend.Payments.Verify.{
  Payment, order_paid_by, failure_of, pending_payment, paid_by, request_of, give_back, or_else,
  drop_pending, complete, collect, unless_failed, unless_placed, verify_and_checkout,
}

-- What holds of the state after an action from `w`, if it returns.
record LeavesAt {A : Type 0} (w : World) (P : World → Type 0) (m : Action World A) : Type 0 where
  pub at : Left P (m w)

Left-of : {A : Type 0} (P : World → Type 0) (r s : Result A × World) → r ≡ s → Left P s → Left P r
Left-of P r s e h = rw e h

LeavesAt-after :
    {A B : Type 0} {m : Action World A} {f : A → Action World B} {w : World} {Q : A → Type 0}
    {P : World → Type 0}
    → Reads w Q m
    → ((a : A) → Q a → LeavesAt w P (f a))
    → LeavesAt w P (m >>= f)
LeavesAt-after {f} {P} (failed e h) go = record {
  at = Left-of P _ _ (ap (λ r. elim r.0 [ ok a ↦ f a r.1 | err x ↦ (err x, r.1) ]) h) tt;
}
LeavesAt-after {f} {P} (found a q h) go = record {
  at = Left-of P _ _ (ap (λ r. elim r.0 [ ok a ↦ f a r.1 | err x ↦ (err x, r.1) ]) h) (go a q).at;
}

module _ (js : Conversions) (c : Carrier) (g : Gateway) (direct : Bool) where
  give_back-Left :
      (u : Uuid) (d : Payment) (p : PendingPayment) (t : World)
      → Left (IsPlaced d.razorpay_payment_id) (give_back g u d p t)
  give_back-Left u d p t = elim (Bool-cases g.configured) [
    | inl on ↦ rw on tt
    | inr off ↦ rw off tt
  ]

  complete-LeavesAt :
      (u : Uuid) (d : Payment) (p : PendingPayment) (w : World)
      → LeavesAt w (IsPlaced d.razorpay_payment_id) (complete js c g direct u d p)
  unfolding complete
  complete-LeavesAt u d p w = record {
    at =
        let m = checkout_from_cart js c direct u (request_of p) (some (paid_by d p)) in
        by_result (m w).0 (m w).1
          ((checkout-Leaves js c direct u (request_of p) (paid_by d p)).at w);
  }
    where
      by_result :
          (r : Result Placed) (t : World)
          → Left (IsPlaced d.razorpay_payment_id) (r, t)
          → Left (IsPlaced d.razorpay_payment_id) (
              or_else
                (λ (v : World). elim r as (λ _. Result Placed × World) [
                  | ok a ↦ (drop_pending d.razorpay_order_id >> pure a) t
                  | err x ↦ (err x, t)
                ])
                (give_back g u d p)
                w)
      by_result (ok x) t h = h
      by_result (err e) t h = give_back-Left u d p t

  collect-LeavesAt :
      (u : Uuid) (d : Payment) (w : World)
      → LeavesAt w (IsPlaced d.razorpay_payment_id) (collect js c g direct u d)
  unfolding collect
  collect-LeavesAt u d w =
      LeavesAt-after (gets-Reads w (pending_payment d.razorpay_order_id)) λ o _.
        LeavesAt-after
          (required-Reads w o
            (bad_request "Payment session expired or invalid. Please try checkout again."))
          λ p _.
            LeavesAt-after
              (throw_if-Reads w (not (p.user_id == u))
                (bad_request "Payment does not belong to this account"))
              λ _ _.
                LeavesAt-after
                  (throw_if-Reads w (not (is_some p.address_id) || is_empty p.shipping_address)
                    (bad_request "Payment session is missing address. Please checkout again."))
                  λ _ _. complete-LeavesAt u d p w

  unless_failed-LeavesAt :
      (u : Uuid) (d : Payment) (w : World) (o : Option CheckoutFailure)
      → LeavesAt w (IsPlaced d.razorpay_payment_id) (unless_failed js c g direct u d o)
  unfolding unless_failed
  unless_failed-LeavesAt u d w none = collect-LeavesAt u d w
  unless_failed-LeavesAt u d w (some f) = record { at = tt }

  unless_placed-LeavesAt :
      (u : Uuid) (d : Payment) (w : World) (o : Option Order)
      → o ≡ order_paid_by d.razorpay_payment_id w
      → LeavesAt w (IsPlaced d.razorpay_payment_id) (unless_placed js c g direct u d o)
  unfolding unless_placed
  unless_placed-LeavesAt u d w none e =
      LeavesAt-after (gets-Reads w (failure_of d.razorpay_payment_id))
        λ f _. unless_failed-LeavesAt u d w f
  unless_placed-LeavesAt u d w (some o) e = record { at = ap is_some (sym e) }

  verify-LeavesAt :
      (u : Uuid) (d : Payment) (w : World)
      → LeavesAt w (IsPlaced d.razorpay_payment_id) (verify_and_checkout js c g direct u d)
  unfolding verify_and_checkout
  verify-LeavesAt u d w =
      LeavesAt-after
        (throw_if-Reads w (not g.configured)
          (service_unavailable "Razorpay is not configured on the server"))
        λ _ _.
          LeavesAt-after
            (verify_signature-Reads g d.razorpay_order_id d.razorpay_payment_id d.razorpay_signature
              w)
            λ _ _.
              LeavesAt-after (gets-Reads w (order_paid_by d.razorpay_payment_id))
                λ o e. unless_placed-LeavesAt u d w o e

  -- When the verification of a payment returns, an order that was paid with this payment stands in
  -- the table of orders.
  pub verify-IsPlaced :
      (u : Uuid) (d : Payment) (w t : World) (p : Placed)
      → verify_and_checkout js c g direct u d w ≡ (ok p, t)
      → IsPlaced d.razorpay_payment_id t
  verify-IsPlaced u d w t p e = rw e at (verify-LeavesAt u d w).at
