-- ===== src/Orders/Status/Handlers.antt =====
-- Each handler, as a step of the order that it names.
use vybekart_backend.Shared.{◌≡◌, refl, sym, Bool, true, false, Option, none, some, not, is_some}
use vybekart_backend.Shared.Text.{Text}
use vybekart_backend.Shared.Action.{bad_request, pure, ◌>>◌}
use vybekart_backend.Data.{World, Uuid}
use vybekart_backend.Data.Orders.{Order, OrderStatus, pending, paid, shipped}
use vybekart_backend.Orders.Lookup.{status_eq}
use vybekart_backend.Ratings.Effects.{record_delivered_order-StillOn}
use vybekart_backend.Orders.Status.{Edge, Outcome, status_eq-same, moves}
use vybekart_backend.Shared.Reads.{gets-Reads, throw_if-Reads}
use vybekart_backend.Data.Writes.{after, before, StillOn-bind, pure-StillOn}
use vybekart_backend.Orders.Status.Steps.{Still, seller_order-Reads, update_order-Outcome}
use vybekart_backend.Orders.Seller.{
  as_paid, as_shipped, as_delivered, rate_delivery, accept_order, ship_order, deliver_order,
}

pub not-false : (b : Bool) → not b ≡ false → b ≡ true
not-false true h = refl
not-false false h = sym h

-- What the guard `if (o.status !== s) throw` leaves.
pub is_status : (o : Order) (s : OrderStatus) → not (status_eq o.status s) ≡ false → o.status ≡ s
is_status o s h = status_eq-same o.status s (not-false _ h)

pub accept_order-Outcome : (k u : Uuid) (w : World) → Outcome k w (accept_order k u)
unfolding accept_order
accept_order-Outcome k u w = after (seller_order-Reads k u w) λ o there.
    after
      (throw_if-Reads w (not (status_eq o.status pending))
        (bad_request "Only pending orders can be accepted"))
      λ _ h.
        update_order-Outcome k as_paid w o there
          (record {
            step = moves (rw (is_status o pending h) Edge.accepted);
            kept = λ p. rw (is_status o pending h) at p;
          })
          λ x. refl

pub ship_order-Outcome :
    (k u : Uuid) (tracking carrier : Text) (w : World)
    → Outcome k w (ship_order k u tracking carrier)
unfolding ship_order
ship_order-Outcome k u tracking carrier w = after (seller_order-Reads k u w) λ o there.
    after
      (throw_if-Reads w (is_some o.stream_id)
        (bad_request "Live-originated orders use packing video and “Request delivery” instead"))
      λ _ _.
        after
          (throw_if-Reads w (not (status_eq o.status paid))
            (bad_request "Only paid orders can be marked as shipped"))
          λ _ h. after (gets-Reads w (λ v. v.now)) λ now _.
            update_order-Outcome k (as_shipped now tracking carrier) w o there
              (record {
                step = moves (rw (is_status o paid h) Edge.sent);
                kept = λ _. (refl, refl, refl);
              })
              λ x. refl

-- The ratings do not stand among the orders.
rate_delivery-Still : (o : Option Uuid) → Still (rate_delivery o)
unfolding rate_delivery
rate_delivery-Still none = pure-StillOn tt
rate_delivery-Still (some b) = record_delivered_order-StillOn (λ v. v.orders) (λ v rs. refl) b

pub deliver_order-Outcome : (k u : Uuid) (w : World) → Outcome k w (deliver_order k u)
unfolding deliver_order
deliver_order-Outcome k u w = after (seller_order-Reads k u w) λ o there.
    after
      (throw_if-Reads w (not (status_eq o.status shipped))
        (bad_request "Only shipped orders can be marked as delivered"))
      λ _ h. after (gets-Reads w (λ v. v.now)) λ now _.
        before (λ r. rate_delivery r.buyer_id >> pure r)
          (λ r. StillOn-bind (rate_delivery-Still r.buyer_id) λ _. pure-StillOn r)
          (update_order-Outcome k (as_delivered now) w o there
            (record { step = moves (rw (is_status o shipped h) Edge.received); kept = λ _. refl })
            λ x. refl)
