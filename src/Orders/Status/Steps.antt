-- ===== src/Orders/Status/Steps.antt =====
-- The look-ups and the write that the handlers share, as far as the table of orders goes.
use vybekart_backend.Shared.{◌≡◌, refl, Option, none, some, not}
use vybekart_backend.Shared.Action.{Action, internal, required}
use vybekart_backend.Shared.Reads.{
  Reads, failed, found, throw_if-Reads, pure-Reads, Reads-bind, require_read-Reads,
}
use vybekart_backend.Data.Writes.{wrote, StillOn}
use vybekart_backend.Data.{World, Uuid, Seller}
use vybekart_backend.Data.Orders.{Order}
use vybekart_backend.Orders.Lookup.{
  order_row, seller_row, buyer_row, find_seller, find_buyer, find_order, require_seller_product,
  seller_order, update_order, has_seller_product,
}
use vybekart_backend.Orders.Status.{Outcome, Legal}

-- An action that leaves the orders alone.
abbrev pub Still : {A : Type 0} → Action World A → Type 0
Still m = StillOn (λ v. v.orders) m

pub find_seller-Reads :
    (u : Uuid) (w : World) → Reads w (λ s. seller_row u w ≡ some s) (find_seller u)
unfolding find_seller
find_seller-Reads u w = require_read-Reads w (seller_row u) _

pub find_buyer-Reads : (u : Uuid) (w : World) → Reads w (λ s. buyer_row u w ≡ some s) (find_buyer u)
unfolding find_buyer
find_buyer-Reads u w = require_read-Reads w (buyer_row u) _

pub find_order-Reads : (k : Uuid) (w : World) → Reads w (λ o. order_row k w ≡ some o) (find_order k)
unfolding find_order
find_order-Reads k w = require_read-Reads w (order_row k) _

pub require_seller_product-Reads :
    (s : Seller) (o : Order) (w : World) → Reads w (λ _. Unit {0}) (require_seller_product s o)
unfolding require_seller_product
require_seller_product-Reads s o w = elim (throw_if-Reads w (not (has_seller_product w s o)) _) [
  | failed x h ↦ failed x h
  | found a _ h ↦ found a tt h
]

pub seller_order-Reads :
    (k u : Uuid) (w : World) → Reads w (λ o. order_row k w ≡ some o) (seller_order k u)
unfolding seller_order
seller_order-Reads k u w = Reads-bind (find_seller-Reads u w) λ s _.
    Reads-bind (find_order-Reads k w)
      λ o there. Reads-bind (require_seller_product-Reads s o w) λ _ _. pure-Reads w _ o there

-- The write leaves the table updated, whatever it returns.
pub update_order-Outcome :
    (k : Uuid) (f : Order → Order) (w : World) (o : Order)
    → order_row k w ≡ some o
    → Legal o (f o)
    → ((x : Order) → (f x).id ≡ x.id)
    → Outcome k w (update_order k f)
unfolding update_order
update_order-Outcome k f w o there legal same = wrote f o there legal same (by_row _ _)
  where
    by_row : (o : Option Order) (t : World) → (required o internal t).1.orders ≡ t.orders
    by_row none t = refl
    by_row (some o) t = refl
