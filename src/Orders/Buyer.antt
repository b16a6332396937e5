-- ===== src/Orders/Buyer.antt =====
-- `cancelOrder` and `returnOrder`.
use vybekart_backend.Shared.{Bool, false, not, ◌||◌, Option, none, some, map, ◌==◌}
use vybekart_backend.Shared.Action.{
  Action, bad_request, forbidden, internal, gets, required, throw_if, transaction, ◌>>=◌, ◌>>◌,
}
use vybekart_backend.Json.{Conversions}
use vybekart_backend.Data.{World, Uuid}
use vybekart_backend.Data.Orders.{Order, pending, paid, packed, delivered, cancelled, returned}
use vybekart_backend.Orders.Lookup.{status_eq, order_row, find_buyer, find_order, update_order}
use vybekart_backend.Orders.Stock.{move_all, given_back}

-- `order.buyerId === buyer.id`
abbrev pub is_owner : Option Uuid → Uuid → Bool
is_owner none b = false
is_owner (some a) b = a == b

-- The data of the updates.
abbrev pub as_cancelled : Order → Order
as_cancelled r = record r { status = cancelled }

abbrev pub as_returned : Order → Order
as_returned r = record r { status = returned }

unfoldable pub cancel_order : Conversions → Uuid → Uuid → Action World Order
unfolding find_buyer find_order update_order
cancel_order js k u = do
  b ← find_buyer u
  o ← find_order k
  throw_if (not (is_owner o.buyer_id b.id)) (forbidden "You can only cancel your own orders")
  throw_if
      (not (status_eq o.status pending || status_eq o.status paid || status_eq o.status packed))
      (bad_request "Only pending, paid, or packed orders can be cancelled")
  transaction (do move_all js (map given_back o.items); update_order k as_cancelled)
  found ← gets (order_row k)
  required found internal

unfoldable pub return_order : Uuid → Uuid → Action World Order
unfolding find_buyer find_order update_order
return_order k u = do
  b ← find_buyer u
  o ← find_order k
  throw_if (not (is_owner o.buyer_id b.id)) (forbidden "You can only return your own orders")
  throw_if (not (status_eq o.status delivered))
      (bad_request "Only delivered orders can be returned")
  update_order k as_returned
