-- ===== src/Orders/Seller.antt =====
-- `acceptOrder`, `shipOrder` and `deliverOrder`.
use vybekart_backend.Shared.{not, Option, none, some, is_some}
use vybekart_backend.Shared.Text.{Text}
use vybekart_backend.Shared.Action.{Action, bad_request, pure, gets, throw_if, ◌>>=◌, ◌>>◌}
use vybekart_backend.Data.{World, Uuid, Time}
use vybekart_backend.Data.Orders.{Order, pending, paid, shipped, delivered}
use vybekart_backend.Orders.Lookup.{status_eq, seller_order, update_order}
use vybekart_backend.Ratings.Buyer.{record_delivered_order}

-- The data of the updates.
abbrev pub as_paid : Order → Order
as_paid r = record r { status = paid }

abbrev pub as_shipped : Time → Text → Text → Order → Order
as_shipped now tracking carrier r = record r {
  status = shipped;
  tracking_id = some tracking;
  carrier_name = some carrier;
  shipped_at = some now;
}

abbrev pub as_delivered : Time → Order → Order
as_delivered now r = record r { status = delivered; delivered_at = some now }

unfoldable pub accept_order : Uuid → Uuid → Action World Order
unfolding seller_order update_order
accept_order k u = do
  o ← seller_order k u
  throw_if (not (status_eq o.status pending)) (bad_request "Only pending orders can be accepted")
  update_order k as_paid

unfoldable pub ship_order : Uuid → Uuid → Text → Text → Action World Order
unfolding seller_order update_order
ship_order k u tracking carrier = do
  o ← seller_order k u
  throw_if (is_some o.stream_id)
      (bad_request "Live-originated orders use packing video and “Request delivery” instead")
  throw_if (not (status_eq o.status paid)) (bad_request "Only paid orders can be marked as shipped")
  now ← gets (λ w. w.now)
  update_order k (as_shipped now tracking carrier)

-- `if (order.buyerId) await this.ratings.recordDeliveredOrder(order.buyerId)`
unfoldable pub rate_delivery : Option Uuid → Action World (Unit {0})
unfolding record_delivered_order
rate_delivery none = pure tt
rate_delivery (some b) = record_delivered_order b

unfoldable pub deliver_order : Uuid → Uuid → Action World Order
unfolding seller_order update_order rate_delivery
deliver_order k u = do
  o ← seller_order k u
  throw_if (not (status_eq o.status shipped))
      (bad_request "Only shipped orders can be marked as delivered")
  now ← gets (λ w. w.now)
  r ← update_order k (as_delivered now)
  rate_delivery r.buyer_id
  pure r
