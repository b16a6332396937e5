-- ===== src/Orders/Packing.antt =====
-- `uploadPackingVideo` and `requestDeliveryFromPartner`.
use vybekart_backend.Shared.{
  ℕ, ◌*◌, Bool, not, ◌||◌, ◌&&◌, true, false, Option, none, some, [], ◌==◌, if◌then◌else◌, ltb,
  ◌otherwise◌, is_some,
}
use vybekart_backend.Shared.Lists.{length, is_empty, find}
use vybekart_backend.Shared.Text.{Text, codes, trim}
use vybekart_backend.Shared.Action.{
  Action, bad_request, service_unavailable, pure, gets, required, throw_if, ◌>>=◌, ◌>>◌,
}
use vybekart_backend.Data.{World, Uuid, Time, User, Seller, Address, AddressType, pickup}
use vybekart_backend.Data.Orders.{Order, paid, packed, shipped}
use vybekart_backend.Data.Table.{row}
use vybekart_backend.Orders.Lookup.{
  status_eq, find_seller, find_order, require_seller_product, update_order,
}
use vybekart_backend.Orders.Pin.{find_pin, normalize_in_phone}
use vybekart_backend.Orders.Carrier.{ShipmentRequest, Shipment, Carrier}

-- `s?.trim() || undefined`
abbrev pub unless_blank : Option Text → Option Text
unless_blank none = none
unless_blank (some s) = let t = trim s in if is_empty t then none else some t

-- The data of the update.
abbrev pub as_packed : Time → Text → Order → Order
as_packed now url r = record r {
  packing_video_url = some url;
  packed_at = some now;
  status = packed;
}

-- `has_file` tells whether the upload holds any bytes, and `url` is the address under which the
-- written file is served.
unfoldable pub upload_packing_video : Bool → Text → Uuid → Uuid → Action World Order
unfolding find_seller find_order require_seller_product update_order
upload_packing_video has_file url k u = do
  throw_if (not has_file) (bad_request "Video file is required")
  s ← find_seller u
  o ← find_order k
  throw_if (not (is_some o.stream_id))
      (bad_request "Packing video applies to live stream orders only")
  require_seller_product s o
  throw_if (not (status_eq o.status paid))
      (bad_request "Order must be accepted (paid) before packing")
  now ← gets (λ w. w.now)
  update_order k (as_packed now url)

abbrev pub is_pickup : AddressType → Bool
is_pickup pickup = true
is_pickup _ = false

-- The newest PICKUP address of a user; the table stands with the newest rows first.
abbrev pub pickup_address : Uuid → World → Option Address
pickup_address u w = find (λ a. a.user_id == u && is_pickup a.type) w.addresses

abbrev pub buyer_user : Option Uuid → World → Option User
buyer_user none w = none
buyer_user (some b) w = elim (row (λ x. x.id) b w.buyers) [
  | none ↦ none
  | some x ↦ row (λ y. y.id) x.user_id w.users
]

abbrev pub phone_of : Option User → Option Text
phone_of none = none
phone_of (some x) = x.phone

abbrev pub name_of : Option User → Text
name_of none = codes "Buyer"
name_of (some x) = x.name

-- `Math.max(500, itemCount * 500)`
abbrev pub weight_for : ℕ → ℕ
weight_for n = if ltb (n * 500) 500 then 500 else n * 500

abbrev pub pin_missing : Text → Bool
pin_missing p = is_empty p || not (length p == 6)

-- `shipmentData` if it has a waybill.
abbrev pub with_waybill : Option Shipment → Option Shipment
with_waybill none = none
with_waybill (some s) = if is_empty s.waybill then none else some s

-- The shipment of the order `k`, from the address `a` of the seller to the address `drop`.
abbrev pub request_of :
    Carrier → Uuid → Seller → Order → Address → Option User → Text → Text → ShipmentRequest
unfolding find_pin normalize_in_phone
request_of c k s o a buyer phone drop = record {
  order_id = k;
  pickup_location = unless_blank c.pickup_location otherwise trim s.business_name;
  origin_pin = trim (a.zip otherwise []);
  destination_pin = find_pin drop otherwise [];
  consignee_name = name_of buyer;
  consignee_phone = normalize_in_phone phone;
  consignee_address = drop;
  weight_grams = weight_for (length o.items);
}

-- What the handler reads before it asks the carrier: the shipment that it requests.
unfoldable pub shipment_for : Carrier → Uuid → Seller → Order → Uuid → Action World ShipmentRequest
unfolding find_pin normalize_in_phone
shipment_for c k s o u = do
  a ←
      required (← gets (pickup_address u))
        (bad_request "Pickup address is missing. Please update pickup address in store profile.")
  buyer ← gets (buyer_user o.buyer_id)
  phone ← required (phone_of buyer) (bad_request "Buyer phone is missing")
  drop ←
      required (unless_blank o.shipping_address) (bad_request "Order shipping address is missing")
  throw_if (pin_missing (trim (a.zip otherwise [])))
      (bad_request "Pickup pincode is missing or invalid. Update pickup address in store profile.")
  throw_if (pin_missing (find_pin drop otherwise []))
      (bad_request "Could not find a valid 6-digit pincode in the shipping address.")
  throw_if (not c.configured)
      (service_unavailable "Delhivery is not configured on the server. Contact support.")
  pure (request_of c k s o a buyer phone drop)

abbrev pub shipped_by_carrier : ℕ → Shipment → Order → Order
shipped_by_carrier now s r = record r {
  status = shipped;
  shipped_at = some now;
  carrier_name = some (codes "Delhivery");
  tracking_id = some s.waybill;
  delivery_provider = some (codes "DELHIVERY");
  tracking_url = s.tracking_url;
  partner_status = s.status;
  delivery_status = some (s.status otherwise codes "Created");
}

unfoldable pub request_delivery : Carrier → Uuid → Uuid → Action World Order
unfolding find_seller find_order require_seller_product shipment_for update_order
request_delivery c k u = do
  s ← find_seller u
  o ← find_order k
  throw_if (not (is_some o.stream_id)) (bad_request "Only live-originated orders use this action")
  require_seller_product s o
  throw_if (not (status_eq o.status packed)) (bad_request "Order must be packed first")
  request ← shipment_for c k s o u
  shipment ←
      required (with_waybill (c.create_shipment request))
        (bad_request "Delhivery could not create shipment")
  now ← gets (λ w. w.now)
  update_order k (shipped_by_carrier now shipment)
