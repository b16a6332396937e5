-- ===== src/Timelines/Orders.antt =====
-- `buildSellerOrderTimeline`, `buildSellerNextAction`, `buildBuyerOrderTimeline`, and what the buyer's
-- page says of replacements. The order in the store has no time of creation, so it is an argument.
use vybekart_backend.Shared.{
  Bool, true, false, not, ◌&&◌, ◌||◌, Option, none, some, List, [], ◌∷◌, is_some, if◌then◌else◌,
  ◌==◌,
}
use vybekart_backend.Shared.Lists.{any, find, filter}
use vybekart_backend.Shared.Text.{codes}
use vybekart_backend.Data.{World, Uuid, Time}
use vybekart_backend.Data.Orders.{
  Order, OrderStatus, pending, paid, packed, shipped, delivered, cancelled,
}
use vybekart_backend.Data.Replacements.{Replacement, ReplacementStatus}
use vybekart_backend.Orders.Lookup.{status_eq}
use vybekart_backend.Replacements.Rules
use vybekart_backend.Timelines.{
  done, active, Stage, Step, shown, is_text, stage, mark_first, mark_index,
}

abbrev pub is_handed_over : OrderStatus → Bool
is_handed_over s = status_eq s shipped || status_eq s delivered

abbrev pub is_packed : OrderStatus → Bool
is_packed s = status_eq s packed || is_handed_over s

abbrev pub seller_stages : Time → Order → List Stage
seller_stages created o =
    stage (codes "received") (codes "Order received")
      (not (status_eq o.status pending) && not (status_eq o.status cancelled)) (some created)
    ∷ stage (codes "pack_video") (codes "Record packing video")
        (is_text o.packing_video_url || is_packed o.status) o.packed_at
    ∷ stage (codes "packed") (codes "Packed") (is_packed o.status) o.packed_at
    ∷ stage (codes "delhivery") (codes "Delhivery pickup")
        (is_text o.tracking_id || is_handed_over o.status) o.shipped_at
    ∷ stage (codes "in_transit") (codes "In transit") (is_handed_over o.status) o.shipped_at
    ∷ stage (codes "delivered") (codes "Delivered") (status_eq o.status delivered) o.delivered_at
    ∷ []

unfoldable pub seller_timeline : Time → Order → List Step
unfolding mark_first
seller_timeline created o = mark_first false (seller_stages created o)

pub data NextAction : Type 0 where
  pack_video request_delivery track no_action : NextAction

unfoldable pub seller_next_action : OrderStatus → NextAction
seller_next_action paid = pack_video
seller_next_action packed = request_delivery
seller_next_action shipped = track
seller_next_action _ = no_action

abbrev pub buyer_stages : Time → Order → List Stage
buyer_stages created o =
    stage (codes "placed") (codes "Order placed") (not (status_eq o.status pending)) (some created)
    ∷ stage (codes "confirmed") (codes "Confirmed") (status_eq o.status paid || is_packed o.status)
        (some created)
    ∷ stage (codes "packed") (codes "Packed") (is_packed o.status) o.packed_at
    ∷ stage (codes "shipped") (codes "Shipped") (is_handed_over o.status || is_text o.tracking_id)
        o.shipped_at
    ∷ stage (codes "delivered") (codes "Delivered") (status_eq o.status delivered) o.delivered_at
    ∷ []

abbrev pub cancelled_timeline : Time → List Step
cancelled_timeline created =
    shown done (stage (codes "placed") (codes "Order placed") true (some created))
    ∷ shown active (stage (codes "cancelled") (codes "Cancelled") false none)
    ∷ []

unfoldable pub buyer_timeline : Time → Order → List Step
unfolding mark_index
buyer_timeline created o =
    if status_eq o.status cancelled
    then cancelled_timeline created
    else mark_index (buyer_stages created o)

-- `order.replacementRequests`
abbrev pub requests_of : Uuid → World → List Replacement
requests_of k w = filter (λ r. r.order_id == k) w.replacements

abbrev pub is_rejected : Replacement → Bool
is_rejected r = Rules.status_eq r.status ReplacementStatus.rejected

abbrev pub is_delivered : Replacement → Bool
is_delivered r = Rules.status_eq r.status ReplacementStatus.delivered

-- `openReplacement`
abbrev pub open_replacement : List Replacement → Option Replacement
open_replacement rs = find (λ r. not (is_rejected r) && not (is_delivered r)) rs

-- `canRequestReplacement`
unfoldable pub can_request_replacement : Order → List Replacement → Bool
can_request_replacement o rs =
    status_eq o.status delivered
    && is_some o.delivered_at
    && not (is_some (open_replacement rs))
    && not (any (λ r. not (is_rejected r)) rs)
