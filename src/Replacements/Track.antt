-- ===== src/Replacements/Track.antt =====
-- `getDeliveryStatus` and `deliver` of replacements.
use vybekart_backend.Shared.{Option, none, some, if◌then◌else◌, ◌or◌}
use vybekart_backend.Shared.Text.{Text}
use vybekart_backend.Shared.Action.{Action, not_found, pure, gets, required, ◌>>=◌, ◌>>◌}
use vybekart_backend.Data.{World, Uuid, Time}
use vybekart_backend.Data.Replacements.{Replacement, shipped, delivered}
use vybekart_backend.Orders.Lookup.{seller_row, find_seller}
use vybekart_backend.Orders.Carrier.{Carrier, is_delivered_status}
use vybekart_backend.Orders.Tracking.{tracked_by}
use vybekart_backend.Replacements.Rules.{
  status_eq, replacement_row, if_sold_by, seller_replacement, update_replacement,
}

-- The data of the update: `status` is what the carrier or, failing that, the request says.
abbrev pub polled : Time → Option Text → Replacement → Replacement
unfolding is_delivered_status
polled now status r =
    let told = record r { delivery_status = status or r.delivery_status } in
    if is_delivered_status status
    then record told { status = delivered; delivered_at = r.delivered_at or some now }
    else told

unfoldable pub poll : Carrier → Uuid → Replacement → Option Text → Action World Replacement
unfolding update_replacement
poll c k r none = pure r
poll c k r (some t) = do
  now ← gets (λ w. w.now)
  update_replacement k (polled now (c.track t or r.delivery_status))

unfoldable pub delivery_status : Carrier → Uuid → Uuid → Action World Replacement
unfolding find_seller seller_replacement poll
delivery_status c k u = do
  s ← find_seller u
  r ← seller_replacement k s
  poll c k r (tracked_by r.delivery_provider r.tracking_id)

abbrev pub as_delivered : Time → Replacement → Replacement
as_delivered now r = record r { status = delivered; delivered_at = some now }

abbrev pub if_shipped : Option Replacement → Option Replacement
if_shipped none = none
if_shipped (some r) = if status_eq r.status shipped then some r else none

unfoldable pub deliver : Uuid → Uuid → Action World Replacement
unfolding update_replacement
deliver k u = do
  s ← required (← gets (seller_row u)) (not_found "Seller not found")
  required (← gets (λ w. if_shipped (if_sold_by s.id (replacement_row k w))))
      (not_found "Replacement not found")
  now ← gets (λ w. w.now)
  update_replacement k (as_delivered now)
