-- ===== src/Payments/Settled/Again.antt =====
-- A verification that is repeated.
use vybekart_backend.Shared.{
  ◌≡◌, refl, ap, ◌∙◌, Bool, true, not, ◌||◌, Option, none, some, ◌==◌, ==_refl, is_some, Bool-cases,
  inl, inr,
}
use vybekart_backend.Shared.Lists.{is_empty}
use vybekart_backend.Shared.Action.{
  Action, Result, ok, err, bad_request, service_unavailable, pure, ◌>>=◌, ◌>>◌,
}
use vybekart_backend.Json.{Conversions}
use vybekart_backend.Data.{World, Uuid}
use vybekart_backend.Data.Orders.{Order}
use vybekart_backend.Data.Carts.{PendingPayment, CheckoutFailure}
use vybekart_backend.Orders.Carrier.{Carrier}
use vybekart_backend.Shared.Reads.{
  Reads, failed, found, gets-Reads, throw_if-Reads, required-Reads, Reads-bind,
}
use vybekart_backend.Checkout.Place.{Placed, to_checkout_response, checkout_from_cart}
use vybekart_backend.Payments.Gateway.{Gateway, verify_signature-Reads}
use vybekart_backend.Payments.Settled.{Left, IsPlaced, checkout-Leaves}
use vybekart_backend.Payments.Verify.{
  Payment, order_paid_by, failure_of, pending_payment, paid_by, request_of, refusal, give_back,
  or_else, drop_pending, complete, collect, unless_failed, unless_placed, verify_and_checkout,
}

-- An order was placed for the payment `k`, or its failure is recorded.
abbrev pub IsSettled : Uuid → World → Type 0
IsSettled k w = (is_some (order_paid_by k w) || is_some (failure_of k w)) ≡ true

failed-IsSettled : (k : Uuid) (o : Option Order) → (is_some o || true) ≡ true
failed-IsSettled k none = refl
failed-IsSettled k (some o) = refl

placed-IsSettled : (o : Option Order) (b : Bool) → is_some o ≡ true → (is_some o || b) ≡ true
placed-IsSettled none b h = cc
placed-IsSettled (some o) b h = refl

-- Whether an action settles the payment or leaves everything as it was.
data Verdict {A : Type 0} (k : Uuid) (w : World) (m : Action World A) : Type 0 where
  untouched : (m w).1 ≡ w → Verdict k w m
  settled : IsSettled k (m w).1 → Verdict k w m

Verdict-after :
    {A B : Type 0} {m : Action World A} {f : A → Action World B} {w : World} {P : A → Type 0}
    {k : Uuid}
    → Reads w P m
    → ((a : A) → P a → Verdict k w (f a))
    → Verdict k w (m >>= f)
Verdict-after {B} {f} (failed e h) go = untouched (
    ap (λ (r : Result B × World). r.1)
      (ap (λ r. elim r.0 [ ok a ↦ f a r.1 | err x ↦ (err x, r.1) ]) h))
Verdict-after {B} {f} {k} (found a p h) go =
    let run =
      ap (λ (r : Result B × World). r.1)
        (ap (λ r. elim r.0 [ ok a ↦ f a r.1 | err x ↦ (err x, r.1) ]) h) in
    elim (go a p) [ untouched q ↦ untouched (run ∙ q) | settled q ↦ settled (rw (← run) at q) ]

Verdict-of_read :
    {A : Type 0} {k : Uuid} {w : World} {P : A → Type 0} {m : Action World A}
    → Reads w P m
    → Verdict k w m
Verdict-of_read (failed e h) = untouched (ap (λ r. r.1) h)
Verdict-of_read (found a p h) = untouched (ap (λ r. r.1) h)

module _ (js : Conversions) (c : Carrier) (g : Gateway) (direct : Bool) where
  give_back-IsSettled :
      (u : Uuid) (d : Payment) (p : PendingPayment) (t : World)
      → IsSettled d.razorpay_payment_id (give_back g u d p t).1
  give_back-IsSettled u d p t =
      let recorded =
        failed-IsSettled d.razorpay_payment_id (order_paid_by d.razorpay_payment_id t) in
      elim (Bool-cases g.configured) [
        | inl on ↦ rw (on, ==_refl d.razorpay_payment_id) recorded
        | inr off ↦ rw (off, ==_refl d.razorpay_payment_id) recorded
      ]

  complete-IsSettled :
      (u : Uuid) (d : Payment) (p : PendingPayment) (w : World)
      → IsSettled d.razorpay_payment_id (complete js c g direct u d p w).1
  unfolding complete
  complete-IsSettled u d p w =
      let m = checkout_from_cart js c direct u (request_of p) (some (paid_by d p)) in
      by_result (m w).0 (m w).1 ((checkout-Leaves js c direct u (request_of p) (paid_by d p)).at w)
    where
      by_result :
          (r : Result Placed) (t : World)
          → Left (IsPlaced d.razorpay_payment_id) (r, t)
          → IsSettled d.razorpay_payment_id
              (or_else
                (λ (v : World). elim r as (λ _. Result Placed × World) [
                  | ok a ↦ (drop_pending d.razorpay_order_id >> pure a) t
                  | err x ↦ (err x, t)
                ])
                (give_back g u d p)
                w).1
      by_result (ok x) t h = placed-IsSettled (order_paid_by d.razorpay_payment_id t) _ h
      by_result (err e) t h = give_back-IsSettled u d p t

  collect-Verdict :
      (u : Uuid) (d : Payment) (w : World)
      → Verdict d.razorpay_payment_id w (collect js c g direct u d)
  unfolding collect
  collect-Verdict u d w = Verdict-after (gets-Reads w (pending_payment d.razorpay_order_id)) λ o _.
      Verdict-after
        (required-Reads w o
          (bad_request "Payment session expired or invalid. Please try checkout again."))
        λ p _.
          Verdict-after
            (throw_if-Reads w (not (p.user_id == u))
              (bad_request "Payment does not belong to this account"))
            λ _ _.
              Verdict-after
                (throw_if-Reads w (not (is_some p.address_id) || is_empty p.shipping_address)
                  (bad_request "Payment session is missing address. Please checkout again."))
                λ _ _. by_completion p
    where
      by_completion :
          (p : PendingPayment) → Verdict d.razorpay_payment_id w (complete js c g direct u d p)
      by_completion p = settled (complete-IsSettled u d p w)

  unless_failed-Verdict :
      (u : Uuid) (d : Payment) (w : World) (o : Option CheckoutFailure)
      → Verdict d.razorpay_payment_id w (unless_failed js c g direct u d o)
  unfolding unless_failed
  unless_failed-Verdict u d w none = collect-Verdict u d w
  unless_failed-Verdict u d w (some f) = untouched refl

  unless_placed-Verdict :
      (u : Uuid) (d : Payment) (w : World) (o : Option Order)
      → Verdict d.razorpay_payment_id w (unless_placed js c g direct u d o)
  unfolding unless_placed
  unless_placed-Verdict u d w none =
      Verdict-after (gets-Reads w (failure_of d.razorpay_payment_id))
        λ o _. unless_failed-Verdict u d w o
  unless_placed-Verdict u d w (some o) = untouched refl

  verify-Verdict :
      (u : Uuid) (d : Payment) (w : World)
      → Verdict d.razorpay_payment_id w (verify_and_checkout js c g direct u d)
  unfolding verify_and_checkout
  verify-Verdict u d w =
      Verdict-after
        (throw_if-Reads w (not g.configured)
          (service_unavailable "Razorpay is not configured on the server"))
        λ _ _.
          Verdict-after
            (verify_signature-Reads g d.razorpay_order_id d.razorpay_payment_id d.razorpay_signature
              w)
            λ _ _.
              Verdict-after (gets-Reads w (order_paid_by d.razorpay_payment_id))
                λ o _. unless_placed-Verdict u d w o

  unless_failed-Reads :
      (u : Uuid) (d : Payment) (w : World) (o : Option CheckoutFailure)
      → is_some o ≡ true
      → Reads w (λ _. Unit {0}) (unless_failed js c g direct u d o)
  unfolding unless_failed
  unless_failed-Reads u d w none h = cc
  unless_failed-Reads u d w (some f) h = failed (refusal f.refund_status) refl

  unless_placed-Reads :
      (u : Uuid) (d : Payment) (w : World) (o : Option Order)
      → (is_some o || is_some (failure_of d.razorpay_payment_id w)) ≡ true
      → Reads w (λ _. Unit {0}) (unless_placed js c g direct u d o)
  unfolding unless_placed
  unless_placed-Reads u d w (some o) h = found (to_checkout_response o) tt refl
  unless_placed-Reads u d w none h =
      Reads-bind (gets-Reads w (failure_of d.razorpay_payment_id))
        λ f e. unless_failed-Reads u d w f (rw e h)

  -- Once an order was placed for a payment, or its failure was recorded, a verification of this
  -- payment by any user, with any signature and order id, leaves everything as it is.
  pub verify_when_settled :
      (u : Uuid) (d : Payment) (w : World)
      → IsSettled d.razorpay_payment_id w
      → (verify_and_checkout js c g direct u d w).1 ≡ w
  unfolding verify_and_checkout
  verify_when_settled u d w h = by_read (
      Reads-bind
        (throw_if-Reads w (not g.configured)
          (service_unavailable "Razorpay is not configured on the server"))
        λ _ _.
          Reads-bind
            (verify_signature-Reads g d.razorpay_order_id d.razorpay_payment_id d.razorpay_signature
              w)
            λ _ _.
              Reads-bind (gets-Reads w (order_paid_by d.razorpay_payment_id))
                λ o e. unless_placed-Reads u d w o (rw e h))
    where
      by_read : {m : Action World Placed} → Reads w (λ _. Unit {0}) m → (m w).1 ≡ w
      by_read (failed e k) = ap (λ (r : Result Placed × World). r.1) k
      by_read (found a p k) = ap (λ (r : Result Placed × World). r.1) k

  -- A verification that is repeated changes nothing the second time: no second order, no second
  -- refund, no second record of a failure, however the first one ended.
  pub verify_again :
      (u : Uuid) (d : Payment) (w : World)
      → (verify_and_checkout js c g direct u d (verify_and_checkout js c g direct u d w).1).1
        ≡ (verify_and_checkout js c g direct u d w).1
  verify_again u d w = elim (verify-Verdict u d w) [
    | untouched q ↦ ap (λ v. (verify_and_checkout js c g direct u d v).1) q
    | settled q ↦ verify_when_settled u d _ q
  ]
