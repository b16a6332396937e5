-- ===== src/Orders/Carrier.antt =====
-- The delivery partner, as src/delhivery/delhivery.service.ts presents it: what its service answers
-- is a parameter of the model. `isDelhiveryDeliveredStatus` of src/orders/seller-order.mapper.ts.
use vybekart_backend.Shared.{
  ℕ, ◌+◌, Bool, true, false, ◌&&◌, ◌||◌, Option, none, some, [], ◌∷◌, map, leb, ◌==◌, if◌then◌else◌,
}
use vybekart_backend.Shared.Text.{Text, codes, text_eq, trim}
use vybekart_backend.Data.{Uuid}

pub record ShipmentRequest : Type 0 where
  pub order_id : Uuid
  pub pickup_location : Text
  pub origin_pin : Text
  pub destination_pin : Text
  pub consignee_name : Text
  pub consignee_phone : Text
  pub consignee_address : Text
  pub weight_grams : ℕ

pub record Shipment : Type 0 where
  pub waybill : Text
  pub tracking_url : Option Text
  pub status : Option Text

-- `isConfigured`, `createShipment`, the status of `trackShipment`, the fee of
-- `calculateShippingCost`, and the setting DELHIVERY_PICKUP_LOCATION.
pub record Carrier : Type 0 where
  pub configured : Bool
  pub create_shipment : ShipmentRequest → Option Shipment
  pub track : Text → Option Text
  pub shipping_cost : Text → Text → ℕ → Option ℕ
  pub pickup_location : Option Text

-- `toLowerCase` on the letters A to Z. (No other letter becomes one of those sought below.)
abbrev pub lower : ℕ → ℕ
lower c = if leb b'A' c && leb c b'Z' then c + 32 else c

unfoldable pub starts_with : Text → Text → Bool
starts_with [] s = true
starts_with (a ∷ p) [] = false
starts_with (a ∷ p) (b ∷ s) = if a == b then starts_with p s else false

-- `s.includes(p)`
unfoldable pub includes : Text → Text → Bool
includes p [] = starts_with p []
includes p (c ∷ s) = let later = includes p s in if starts_with p (c ∷ s) then true else later

unfoldable pub is_delivered_status : Option Text → Bool
unfolding includes starts_with trim text_eq
is_delivered_status none = false
is_delivered_status (some []) = false
is_delivered_status (some (c ∷ t)) =
    let s = map lower (trim (c ∷ t)) in
    text_eq s (codes "delivered") || text_eq s (codes "dto") || includes (codes "delivered") s
