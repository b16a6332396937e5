-- ===== src/Orders/Lookup.antt =====
-- The look-ups with which the handlers of orders.service.ts begin, and the write with which most
-- of them end.
use vybekart_backend.Shared.{ℕ, Bool, false, not, Option, none, some, ◌==◌}
use vybekart_backend.Shared.Lists.{any}
use vybekart_backend.Shared.Action.{
  Action, forbidden, not_found, internal, pure, gets, required, throw_if, modify, ◌>>=◌, ◌>>◌,
}
use vybekart_backend.Data.{World, Uuid, Buyer, Seller, Product}
use vybekart_backend.Data.Orders.{
  Order, OrderStatus, pending, paid, packed, shipped, delivered, cancelled, returned,
}
use vybekart_backend.Data.Table.{row, update}

abbrev pub order_row : Uuid → World → Option Order
order_row k w = row (λ o. o.id) k w.orders

abbrev pub product_row : Uuid → World → Option Product
product_row k w = row (λ p. p.id) k w.products

abbrev pub seller_row : Uuid → World → Option Seller
seller_row u w = row (λ s. s.user_id) u w.sellers

abbrev pub buyer_row : Uuid → World → Option Buyer
buyer_row u w = row (λ b. b.user_id) u w.buyers

abbrev pub rank : OrderStatus → ℕ
rank pending = 0
rank paid = 1
rank packed = 2
rank shipped = 3
rank delivered = 4
rank cancelled = 5
rank returned = 6

-- `s === t`
abbrev pub status_eq : OrderStatus → OrderStatus → Bool
status_eq s t = rank s == rank t

abbrev pub sold_by : Uuid → Option Product → Bool
sold_by seller none = false
sold_by seller (some p) = p.seller_id == seller

-- `order.items.some((item) => item.product.sellerId === seller.id)`
unfoldable pub has_seller_product : World → Seller → Order → Bool
has_seller_product w s o = any (λ i. sold_by s.id (product_row i.product_id w)) o.items

unfoldable pub find_seller : Uuid → Action World Seller
find_seller u = do
  found ← gets (seller_row u)
  required found (forbidden "User is not a registered seller")

unfoldable pub find_buyer : Uuid → Action World Buyer
find_buyer u = do
  found ← gets (buyer_row u)
  required found (forbidden "User is not a registered buyer")

unfoldable pub find_order : Uuid → Action World Order
find_order k = do found ← gets (order_row k); required found (not_found "Order not found")

unfoldable pub require_seller_product : Seller → Order → Action World (Unit {0})
unfolding has_seller_product
require_seller_product s o = do
  owned ← gets (λ w. has_seller_product w s o)
  throw_if (not owned) (forbidden "This order does not contain your products")

-- The order that a seller acts on: the checks that most handlers share, in their order.
unfoldable pub seller_order : Uuid → Uuid → Action World Order
unfolding find_seller find_order require_seller_product
seller_order k u = do s ← find_seller u; o ← find_order k; require_seller_product s o; pure o

-- `prisma.order.update({ where: { id }, data })`, which returns the new row
unfoldable pub update_order : Uuid → (Order → Order) → Action World Order
update_order k f = do
  modify (λ w. record w { orders = update (λ o. o.id) k f w.orders })
  found ← gets (order_row k)
  required found internal
