-- ===== src/Orders/Status/Closing.antt =====
-- The handlers of the buyer and the poll of the carrier, as steps of the order that they name.
use vybekart_backend.Shared.{
  ℕ, ◌≡◌, refl, ap, true, false, Option, none, some, List, [], ◌∷◌, inl, inr, Bool-cases, not, ◌||◌,
  is_some, map, ◌or◌,
}
use vybekart_backend.Shared.Int.{ℤ}
use vybekart_backend.Shared.Text.{Text}
use vybekart_backend.Shared.Action.{
  Exception, forbidden, internal, Result, ok, err, gets, required, bad_request, ◌>>=◌,
}
use vybekart_backend.Json.{Value, Conversions}
use vybekart_backend.Data.{World, Uuid, Product}
use vybekart_backend.Data.Orders.{
  Order, OrderStatus, pending, paid, packed, shipped, delivered, cancelled, returned,
}
use vybekart_backend.Orders.Lookup.{order_row, product_row, update_order, status_eq}
use vybekart_backend.Orders.Carrier.{Carrier, is_delivered_status}
use vybekart_backend.Orders.Stock.{
  StockMove, move_all, move_stock, move_if_found, move_in_product, write_column, given_back,
}
use vybekart_backend.Orders.Status.{
  Edge, Papers, IsUntracked, Outcome, Legal, stays, moves, reported,
}
use vybekart_backend.Shared.Reads.{failed, found, gets-Reads, throw_if-Reads, required-Reads}
use vybekart_backend.Data.Writes.{
  still, still_first, StillOn-bind, gets-StillOn, pure-StillOn, transaction-TableOutcome, after,
  before,
}
use vybekart_backend.Orders.Status.Steps.{
  Still, find_buyer-Reads, find_order-Reads, seller_order-Reads, update_order-Outcome,
}
use vybekart_backend.Orders.Status.Handlers.{is_status}
use vybekart_backend.Orders.Buyer.{is_owner, as_cancelled, as_returned, cancel_order, return_order}
use vybekart_backend.Orders.Tracking.{
  tracked_by, touch_poll, mock_status, polled, poll, delivery_status,
}

pub return_order-Outcome : (k u : Uuid) (w : World) → Outcome k w (return_order k u)
unfolding return_order
return_order-Outcome k u w = after (find_buyer-Reads u w) λ b _.
    after (find_order-Reads k w) λ o there.
      after
        (throw_if-Reads w (not (is_owner o.buyer_id b.id))
          (forbidden "You can only return your own orders"))
        λ _ _.
          after
            (throw_if-Reads w (not (status_eq o.status delivered))
              (bad_request "Only delivered orders can be returned"))
            λ _ h.
              update_order-Outcome k as_returned w o there
                (record {
                  step = moves (rw (is_status o delivered h) Edge.brought_back);
                  kept = λ p. rw (is_status o delivered h) at p;
                })
                λ x. refl

-- The stock does not stand among the orders.
write_column-Still : (k : Uuid) (r : Result (Value × ℤ)) → Still (write_column k r)
write_column-Still k (ok x) = still λ t. refl
write_column-Still k (err e) = still λ t. refl

module _ (js : Conversions) where
  move_in_product-Still :
      (m : StockMove) (p : Product) (v : Option Text) → Still (move_in_product js m p v)
  move_in_product-Still m p none = still λ t. refl
  move_in_product-Still m p (some v) = write_column-Still m.product_id _

  move_if_found-Still : (m : StockMove) (o : Option Product) → Still (move_if_found js m o)
  move_if_found-Still m none = still λ t. refl
  move_if_found-Still m (some p) = move_in_product-Still m p _

  pub move_all-Still : (ms : List StockMove) → Still (move_all js ms)
  unfolding move_all move_stock
  move_all-Still [] = pure-StillOn tt
  move_all-Still (m ∷ ms) =
      StillOn-bind (StillOn-bind (gets-StillOn (product_row m.product_id)) (move_if_found-Still m))
        λ _. move_all-Still ms

order_row-Still : (k : Uuid) (e : Exception) → Still (gets (order_row k) >>= λ o. required o e)
order_row-Still k e = still λ t. elim (required-Reads t (order_row k t) e) [
  | failed x h ↦ ap (λ (r : Result Order × World). r.1.orders) h
  | found a p h ↦ ap (λ (r : Result Order × World). r.1.orders) h
]

cancel-Edge :
    (s : OrderStatus)
    → not (status_eq s pending || status_eq s paid || status_eq s packed) ≡ false
    → Edge s cancelled
cancel-Edge pending h = Edge.called_off
cancel-Edge paid h = Edge.called_off_paid
cancel-Edge packed h = Edge.called_off_packed
cancel-Edge shipped h = cc
cancel-Edge delivered h = cc
cancel-Edge cancelled h = cc
cancel-Edge returned h = cc

cancel-Papers :
    (s : OrderStatus) (o : Order)
    → not (status_eq s pending || status_eq s paid || status_eq s packed) ≡ false
    → Papers s o
    → IsUntracked o
cancel-Papers pending o h p = p
cancel-Papers paid o h p = p
cancel-Papers packed o h (_, _, _, p) = p
cancel-Papers shipped o h p = cc
cancel-Papers delivered o h p = cc
cancel-Papers cancelled o h p = p
cancel-Papers returned o h p = cc

pub cancel_order-Outcome :
    (js : Conversions) (k u : Uuid) (w : World) → Outcome k w (cancel_order js k u)
unfolding cancel_order
cancel_order-Outcome js k u w = after (find_buyer-Reads u w) λ b _.
    after (find_order-Reads k w) λ o there.
      after
        (throw_if-Reads w (not (is_owner o.buyer_id b.id))
          (forbidden "You can only cancel your own orders"))
        λ _ _.
          after
            (throw_if-Reads w
              (not (
                status_eq o.status pending || status_eq o.status paid || status_eq o.status packed))
              (bad_request "Only pending, paid, or packed orders can be cancelled"))
            λ _ h.
              before (λ _. gets (order_row k) >>= λ r. required r internal)
                (λ _. order_row-Still k internal)
                (transaction-TableOutcome k w _ (
                  still_first (move_all js (map given_back o.items))
                    (λ _. update_order k as_cancelled) w k
                    (move_all-Still js (map given_back o.items))
                    λ _ t q.
                      update_order-Outcome k as_cancelled t o (rw q there)
                        (record {
                          step = moves (cancel-Edge o.status h);
                          kept = cancel-Papers o.status o h;
                        })
                        λ x. refl))

-- What the carrier says of an order is no part of its papers.
told-Papers :
    (s : OrderStatus) (o : Order) (d p : Option Text)
    → Papers s o
    → Papers s (record o { delivery_status = d; partner_status = p })
told-Papers pending o d p h = h
told-Papers paid o d p h = h
told-Papers packed o d p h = h
told-Papers shipped o d p h = h
told-Papers delivered o d p h = h
told-Papers cancelled o d p h = h
told-Papers returned o d p h = h

told-Legal :
    (o : Order) (d p : Option Text) → Legal o (record o { delivery_status = d; partner_status = p })
told-Legal o d p = record { step = stays refl; kept = told-Papers o.status o d p }

is_some-or : {A : Type 0} (o : Option A) (a : A) → is_some (o or some a) ≡ true
is_some-or none a = refl
is_some-or (some b) a = refl

polled-Legal :
    (now : ℕ) (status : Option Text) (o : Order)
    → is_some (tracked_by o.delivery_provider o.tracking_id) ≡ true
    → Legal o (polled now status o)
unfolding is_delivered_status
polled-Legal now status o tracked = elim (Bool-cases (is_delivered_status status)) [
  | inl there ↦
      rw there (record { step = reported tracked refl; kept = λ _. is_some-or o.delivered_at now })
  | inr under_way ↦ rw under_way (told-Legal o _ _)
]

polled-id : (now : ℕ) (status : Option Text) (o : Order) → (polled now status o).id ≡ o.id
unfolding is_delivered_status
polled-id now status o = elim (Bool-cases (is_delivered_status status)) [
  | inl there ↦ rw there refl
  | inr under_way ↦ rw under_way refl
]

poll-Outcome :
    (c : Carrier) (k : Uuid) (o : Order) (t : Option Text) (w : World)
    → order_row k w ≡ some o
    → tracked_by o.delivery_provider o.tracking_id ≡ t
    → Outcome k w (poll c k o t)
unfolding touch_poll
poll-Outcome c k o none w there e = still_first (touch_poll k) _ w k (still λ t. refl) λ _ t q.
    after (gets-Reads t (mock_status k)) λ live _.
      update_order-Outcome k (λ r. record r { delivery_status = some live }) t o (rw q there)
        (told-Legal o (some live) o.partner_status) λ x. refl
poll-Outcome c k o (some n) w there e = after (gets-Reads w (λ v. v.now)) λ now _.
    update_order-Outcome k (polled now (c.track n or o.delivery_status)) w o there
      (polled-Legal now _ o (rw e refl)) (polled-id now _)

pub delivery_status-Outcome :
    (c : Carrier) (k u : Uuid) (w : World) → Outcome k w (delivery_status c k u)
unfolding delivery_status
delivery_status-Outcome c k u w =
    after (seller_order-Reads k u w) λ o there. poll-Outcome c k o _ w there refl
