-- ===== src/Orders/Tracking.antt =====
-- `getOrderDeliveryStatus`, and the in-memory carrier of src/orders/mock-delivery.service.ts.
use vybekart_backend.Shared.{
  ℕ, ◌+◌, ◌-◌, Bool, false, Option, none, some, [], ◌∷◌, ltb, if◌then◌else◌, ◌or◌,
}
use vybekart_backend.Shared.Text.{Text, codes, text_eq}
use vybekart_backend.Shared.Action.{Action, gets, modify, ◌>>=◌, ◌>>◌}
use vybekart_backend.Data.{World, Uuid}
use vybekart_backend.Data.Orders.{Order, delivered}
use vybekart_backend.Data.Table.{row, update}
use vybekart_backend.Orders.Lookup.{seller_order, update_order}
use vybekart_backend.Orders.Carrier.{Carrier, is_delivered_status}

abbrev pub next_phase : ℕ → ℕ
next_phase n = if ltb (n + 1) 4 then n + 1 else 4

-- `touchPoll`
unfoldable pub touch_poll : Uuid → Action World (Unit {0})
touch_poll k = modify (λ w. record w {
  shipments =
      update (λ s. s.order_id) k (λ s. record s { last_poll = w.now; phase = next_phase s.phase })
        w.shipments;
})

-- `MockDeliveryService.getDeliveryStatus`
unfoldable pub mock_status : Uuid → World → Text
mock_status k w = elim (row (λ s. s.order_id) k w.shipments) [
  | none ↦ codes "UNKNOWN"
  | some s ↦
      let elapsed = w.now - s.created_at in
      if ltb elapsed 15000
      then codes "REQUESTED"
      else if ltb elapsed 45000
      then codes "PICKED_UP"
      else if ltb elapsed 120000
      then codes "IN_TRANSIT"
      else codes "OUT_FOR_DELIVERY"
]

abbrev pub is_delhivery : Option Text → Bool
is_delhivery none = false
is_delhivery (some p) = text_eq p (codes "DELHIVERY")

-- `order.deliveryProvider === 'DELHIVERY' && order.trackingId`, with the tracking id
abbrev pub tracked_by : Option Text → Option Text → Option Text
tracked_by p none = none
tracked_by p (some []) = none
tracked_by p (some (c ∷ t)) = if is_delhivery p then some (c ∷ t) else none

-- The data of the update: `status` is what the carrier or, failing that, the order says.
abbrev pub polled : ℕ → Option Text → Order → Order
polled now status r =
    let told = record r {
      delivery_status = status or r.delivery_status;
      partner_status = status or r.partner_status;
    } in
    if is_delivered_status status
    then record told { status = delivered; delivered_at = r.delivered_at or some now }
    else told

abbrev pub poll : Carrier → Uuid → Order → Option Text → Action World Order
poll c k o none = do
  touch_poll k
  live ← gets (mock_status k)
  update_order k (λ r. record r { delivery_status = some live })
poll c k o (some t) = do
  now ← gets (λ w. w.now)
  update_order k (polled now (c.track t or o.delivery_status))

unfoldable pub delivery_status : Carrier → Uuid → Uuid → Action World Order
unfolding seller_order touch_poll mock_status update_order is_delivered_status
delivery_status c k u = do
  o ← seller_order k u
  poll c k o (tracked_by o.delivery_provider o.tracking_id)
