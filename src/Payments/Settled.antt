-- ===== src/Payments/Settled.antt =====
-- What a verification leaves behind: a payment that was taken has an order or a recorded failure,
-- and from then on the same verification changes nothing.
pub mod Again
pub mod Returned
use vybekart_backend.Shared.{
  ℕ, ◌≡◌, refl, sym, ap, ◌∙◌, ◌⊎◌, inl, inr, Bool, true, false, not, ◌||◌, Option, none, some, List,
  [], ◌∷◌, map, arith, ◌==◌, ==_refl, ltb, is_some, if◌then◌else◌, Bool-cases, Option-cases,
}
use vybekart_backend.Shared.Lists.{find, is_empty}
use vybekart_backend.Shared.Text.{Text, text_eq}
use vybekart_backend.Shared.Action.{
  Action, Result, ok, err, Exception, bad_request, service_unavailable, internal, pure, throw, gets,
  required, throw_if, ◌>>=◌, ◌>>◌,
}
use vybekart_backend.Json.{Conversions}
use vybekart_backend.Data.{World, Uuid}
use vybekart_backend.Data.Orders.{Order}
use vybekart_backend.Data.Carts.{PendingPayment, CheckoutFailure}
use vybekart_backend.Data.Table.{row, update}
use vybekart_backend.Orders.Lookup.{update_order, order_row}
use vybekart_backend.Orders.Create.{create}
use vybekart_backend.Orders.Carrier.{Carrier}
use vybekart_backend.Shared.Reads.{
  Reads, failed, found, gets-Reads, pure-Reads, throw_if-Reads, required-Reads, Reads-bind,
}
use vybekart_backend.Cart.Redis.{clear_cart}
use vybekart_backend.Checkout.Ready.{line_of, validate_cart_for_checkout, filled_cart}
use vybekart_backend.Checkout.Quote.{Quote}
use vybekart_backend.Checkout.Place.{
  PaidBy, Placed, CheckoutRequest, address_for, fee_for, fee_of, with_fee, with_payment, settle,
  placed_of, to_checkout_response, checkout_from_cart,
}
use vybekart_backend.Payments.Gateway.{Gateway, verify_signature}
use vybekart_backend.Payments.Verify.{
  Payment, paid_with, order_paid_by, failure_of, pending_payment, paid_by, request_of, refusal,
  give_back, drop_pending, complete, collect, unless_failed, unless_placed, verify_and_checkout,
}

-- What holds of the state after an action that returns.
abbrev pub Left : {A : Type 0} → (World → Type 0) → Result A × World → Type 0
Left P (ok a, t) = P t
Left P (err e, t) = Unit

pub record Leaves {A : Type 0} (P : World → Type 0) (m : Action World A) : Type 0 where
  pub at : (w : World) → Left P (m w)

Leaves-last :
    {A B : Type 0} {P : World → Type 0} (m : Action World A) {f : A → Action World B}
    → ((a : A) → Leaves P (f a))
    → Leaves P (m >>= f)
Leaves-last {A} {B} {P} m {f} rest = record { at = λ w. by_result (m w).0 (m w).1 }
  where
    by_result :
        (r : Result A) (t : World)
        → Left P (elim r as (λ _. Result B × World) [ ok a ↦ f a t | err x ↦ (err x, t) ])
    by_result (ok a) t = (rest a).at t
    by_result (err e) t = tt

Leaves-first :
    {A B : Type 0} (P : World → Type 0) (m : Action World A) (f : A → Action World B)
    → Leaves P m
    → ((a : A) (t : World) → P t → Left P (f a t))
    → Leaves P (m >>= f)
Leaves-first {A} {B} P m f first rest = record { at = λ w. by_result (m w).0 (m w).1 (first.at w) }
  where
    by_result :
        (r : Result A) (t : World)
        → Left P (r, t)
        → Left P (elim r as (λ _. Result B × World) [ ok a ↦ f a t | err x ↦ (err x, t) ])
    by_result (ok a) t p = rest a t p
    by_result (err e) t p = tt

-- An order is there that was paid with `k`.
abbrev pub IsPlaced : Uuid → World → Type 0
IsPlaced k w = is_some (order_paid_by k w) ≡ true

marked :
    (k p : Uuid) (f : Order → Order) (xs : List Order)
    → ((x : Order) → (f x).razorpay_payment_id ≡ some p)
    → is_some (row (λ (x : Order). x.id) k (update (λ (x : Order). x.id) k f xs)) ≡ true
    → is_some (
        find
          (λ (o : Order). paid_with p o.razorpay_payment_id)
          (update (λ (x : Order). x.id) k f xs))
      ≡ true
unfolding row update
marked k p f [] h e = cc
marked k p f (x ∷ xs) h e = elim (Bool-cases (x.id == k)) [
  | inl same ↦ rw (same, h x, ==_refl p) refl
  | inr other ↦
      let later = marked k p f xs h (rw (other, other) at e) in
      rw other (elim (Bool-cases (paid_with p x.razorpay_payment_id)) [
        | inl here ↦ rw here refl
        | inr gone ↦ rw gone later
      ])
]

update_order-Leaves :
    (k p : Uuid) (f : Order → Order)
    → ((x : Order) → (f x).razorpay_payment_id ≡ some p)
    → Leaves (IsPlaced p) (update_order k f)
unfolding update_order
update_order-Leaves k p f h = record { at = λ w. by_row _ _ (marked k p f w.orders h) }
  where
    by_row :
        (o : Option Order) (t : World)
        → (is_some o ≡ true → IsPlaced p t)
        → Left (IsPlaced p) (required o internal t)
    by_row none t g = tt
    by_row (some o) t g = g refl

settle-Leaves :
    (q : Option Quote) (p : PaidBy) (o : Order)
    → Leaves (IsPlaced p.razorpay_payment_id) (settle q (some p) o)
unfolding settle
settle-Leaves q p o = by_fee (ltb 0 (fee_of q))
  where
    by_fee :
        (charged : Bool)
        → Leaves (IsPlaced p.razorpay_payment_id) (
            if charged || true
            then update_order o.id (λ r. with_payment (some p) (with_fee q o.total_amount r))
            else pure o)
    by_fee true = update_order-Leaves o.id p.razorpay_payment_id _ λ x. refl
    by_fee false = update_order-Leaves o.id p.razorpay_payment_id _ λ x. refl

module _ (js : Conversions) (c : Carrier) (direct : Bool) where
  -- A checkout that returns for a payment leaves an order that was paid with it.
  pub checkout-Leaves :
      (u : Uuid) (d : CheckoutRequest) (p : PaidBy)
      → Leaves (IsPlaced p.razorpay_payment_id) (checkout_from_cart js c direct u d (some p))
  unfolding checkout_from_cart clear_cart
  checkout-Leaves u d p =
      Leaves-last
        (throw_if false (bad_request "Please complete payment via Razorpay to place your order."))
        λ _. Leaves-last (validate_cart_for_checkout js u) λ _.
          Leaves-last (filled_cart js u) λ cart. Leaves-last (address_for u d) λ address.
            Leaves-last (fee_for js c u d (some p)) λ q.
              Leaves-last (create js (some cart.1) (some address) (map line_of cart.0.items) u) λ o.
                Leaves-first _ (settle q (some p) o)
                  (λ r. clear_cart u (some cart.1) >> pure (placed_of r q address))
                  (settle-Leaves q p o) λ r t h. h
