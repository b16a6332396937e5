-- ===== src/Orders/Status/Run.antt =====
-- Requests as steps of the whole system, and histories of requests.
use vybekart_backend.Shared.{◌≡◌, ◌∙◌, Bool, true, false, Option, none, some, List, [], ◌∷◌, ◌==◌}
use vybekart_backend.Shared.Text.{Text}
use vybekart_backend.Shared.Action.{Action}
use vybekart_backend.Json.{Conversions}
use vybekart_backend.Data.{World, Uuid}
use vybekart_backend.Data.Orders.{Order, OrderStatus, cancelled}
use vybekart_backend.Data.Writes.{RowChange, same, stepped, TableOutcome-RowChange}
use vybekart_backend.Orders.Lookup.{order_row}
use vybekart_backend.Orders.Carrier.{Carrier}
use vybekart_backend.Orders.Seller.{accept_order, ship_order, deliver_order}
use vybekart_backend.Orders.Packing.{upload_packing_video, request_delivery}
use vybekart_backend.Orders.Buyer.{cancel_order, return_order}
use vybekart_backend.Orders.Tracking.{delivery_status}
use vybekart_backend.Orders.Status.{
  Edge, Step, Legal, Outcome, stays, moves, reported, HasPapers, IsUntracked,
}
use vybekart_backend.Orders.Status.Handlers.{
  accept_order-Outcome, ship_order-Outcome, deliver_order-Outcome,
}
use vybekart_backend.Orders.Status.Packing.{upload_packing_video-Outcome, request_delivery-Outcome}
use vybekart_backend.Orders.Status.Closing.{
  cancel_order-Outcome, return_order-Outcome, delivery_status-Outcome,
}

-- A request on an order, with the user who makes it.
pub data Request : Type 0 where
  accept deliver hand_over poll_carrier cancel bring_back : Uuid → Uuid → Request
  ship : Uuid → Uuid → Text → Text → Request
  film : Bool → Text → Uuid → Uuid → Request

abbrev pub named : Request → Uuid
named (accept k u) = k
named (deliver k u) = k
named (hand_over k u) = k
named (poll_carrier k u) = k
named (cancel k u) = k
named (bring_back k u) = k
named (ship k u t c) = k
named (film b url k u) = k

-- The row of an order before and after: as it was, or one legal step on.
abbrev pub RowStep : Bool → Option Order → Option Order → Type 0
RowStep = RowChange Legal

abbrev pub Held : Option Order → Type 0
Held none = Unit
Held (some o) = HasPapers o

Held-on : (b : Bool) (o o' : Option Order) → RowStep b o o' → Held o → Held o'
Held-on b o o' (same _) h = h
Held-on b o o' (stepped p q e legal) h = legal.kept h

-- The order is there, is cancelled, and no carrier reports on it.
abbrev pub IsCalledOff : Option Order → Type 0
IsCalledOff none = ⊥
IsCalledOff (some o) = (o.status ≡ cancelled) × IsUntracked o

no_way_on : (s t : OrderStatus) → Edge s t → s ≡ cancelled → ⊥
no_way_on _ _ Edge.accepted e = cc
no_way_on _ _ Edge.filmed e = cc
no_way_on _ _ Edge.sent e = cc
no_way_on _ _ Edge.handed_over e = cc
no_way_on _ _ Edge.received e = cc
no_way_on _ _ Edge.called_off e = cc
no_way_on _ _ Edge.called_off_paid e = cc
no_way_on _ _ Edge.called_off_packed e = cc
no_way_on _ _ Edge.brought_back e = cc

unheard : false ≡ true → ⊥
unheard e = cc

still_cancelled :
    (o o' : Order) → Step o o' → o.status ≡ cancelled → IsUntracked o → o'.status ≡ cancelled
still_cancelled o o' (stays s) e u = s ∙ e
still_cancelled o o' (moves s) e u = absurd (no_way_on _ _ s e)
still_cancelled o o' (reported s t) e u = absurd (unheard (rw u at s))

papers_of : (o : Order) → o.status ≡ cancelled → IsUntracked o → HasPapers o
papers_of o e u = rw e u

IsUntracked-of : (o : Order) → o.status ≡ cancelled → HasPapers o → IsUntracked o
IsUntracked-of o e h = rw e at h

IsCalledOff-on : (b : Bool) (o o' : Option Order) → RowStep b o o' → IsCalledOff o → IsCalledOff o'
IsCalledOff-on b o o' (same _) h = h
IsCalledOff-on b o o' (stepped p q e legal) (s, u) =
    let ended = still_cancelled p q legal.step s u in
    (ended, IsUntracked-of q ended (legal.kept (papers_of p s u)))

module _ (js : Conversions) (c : Carrier) where
  unfoldable pub act : Request → Action World Order
  act (accept k u) = accept_order k u
  act (deliver k u) = deliver_order k u
  act (hand_over k u) = request_delivery c k u
  act (poll_carrier k u) = delivery_status c k u
  act (cancel k u) = cancel_order js k u
  act (bring_back k u) = return_order k u
  act (ship k u t m) = ship_order k u t m
  act (film b url k u) = upload_packing_video b url k u

  act-Outcome : (r : Request) (w : World) → Outcome (named r) w (act r)
  unfolding act
  act-Outcome (accept k u) w = accept_order-Outcome k u w
  act-Outcome (deliver k u) w = deliver_order-Outcome k u w
  act-Outcome (hand_over k u) w = request_delivery-Outcome c k u w
  act-Outcome (poll_carrier k u) w = delivery_status-Outcome c k u w
  act-Outcome (cancel k u) w = cancel_order-Outcome js k u w
  act-Outcome (bring_back k u) w = return_order-Outcome k u w
  act-Outcome (ship k u t m) w = ship_order-Outcome k u t m w
  act-Outcome (film b url k u) w = upload_packing_video-Outcome b url k u w

  -- After a request on an order, whether it returns or throws, the row of every order is as it was
  -- before, except that the row of the order that the request names may have made one legal step:
  -- its status stayed, followed an edge of the life of an order, or became delivered on the word of
  -- the carrier that tracks it; and if the order carried what its status wants, it still does.
  pub act-RowStep :
      (r : Request) (w : World) (j : Uuid)
      → RowStep (named r == j) (order_row j w) (order_row j (act r w).1)
  act-RowStep r w j = TableOutcome-RowChange (named r) w (act r) j (act-Outcome r w)

  -- The requests of a history, one after the other; a request that throws counts for its writes.
  abbrev pub run : List Request → World → World
  run [] w = w
  run (r ∷ rs) w = run rs (act r w).1

  -- If every order carries what its status wants (the packing video and its time for PACKED, the
  -- tracking id, the carrier and the time for SHIPPED, the time of delivery for DELIVERED and
  -- RETURNED, and no carrier that reports on it before it is shipped or when it is cancelled), then
  -- the same holds after any history of requests, whichever of them throw.
  pub run-Held :
      (rs : List Request) (w : World)
      → ((j : Uuid) → Held (order_row j w))
      → (j : Uuid) → Held (order_row j (run rs w))
  run-Held [] w h j = h j
  run-Held (r ∷ rs) w h j = run-Held rs (act r w).1 (λ i. Held-on _ _ _ (act-RowStep r w i) (h i)) j

  -- An order that is cancelled, and on which no carrier reports, is so after any history of
  -- requests: nobody can accept, pack, ship, deliver or return it any more.
  pub run-IsCalledOff :
      (rs : List Request) (w : World) (j : Uuid)
      → IsCalledOff (order_row j w)
      → IsCalledOff (order_row j (run rs w))
  run-IsCalledOff [] w j h = h
  run-IsCalledOff (r ∷ rs) w j h =
      run-IsCalledOff rs (act r w).1 j (IsCalledOff-on _ _ _ (act-RowStep r w j) h)
