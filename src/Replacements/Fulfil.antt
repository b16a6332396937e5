-- ===== src/Replacements/Fulfil.antt =====
-- `uploadPackingVideo` and `requestDeliveryFromPartner` of replacements. `ship` is the second.
use vybekart_backend.Shared.{
  Bool, not, ◌&&◌, Option, some, [], ◌∷◌, ◌==◌, if◌then◌else◌, ◌otherwise◌,
}
use vybekart_backend.Shared.Lists.{length}
use vybekart_backend.Shared.Text.{Text, codes, trim}
use vybekart_backend.Shared.Action.{
  Action, bad_request, service_unavailable, internal, pure, gets, required, throw_if, ◌>>=◌, ◌>>◌,
}
use vybekart_backend.Data.{World, Uuid, Time, User, Seller, Address}
use vybekart_backend.Data.Orders.{Order}
use vybekart_backend.Data.Replacements.{Replacement, approved, packed, shipped}
use vybekart_backend.Orders.Lookup.{order_row, find_seller}
use vybekart_backend.Orders.Pin.{find_pin, digits_of, has_country_code}
use vybekart_backend.Orders.Packing.{
  unless_blank, pickup_address, buyer_user, phone_of, name_of, pin_missing, with_waybill,
}
use vybekart_backend.Orders.Carrier.{ShipmentRequest, Shipment, Carrier}
use vybekart_backend.Replacements.Rules.{
  status_eq, seller_replacement, update_replacement, assert_seller_can_fulfill,
}

-- The data of the updates.
abbrev pub as_packed : Time → Text → Replacement → Replacement
as_packed now url r = record r {
  packing_video_url = some url;
  packed_at = some now;
  status = packed;
}

abbrev pub as_shipped : Time → Shipment → Replacement → Replacement
as_shipped now s r = record r {
  status = shipped;
  shipped_at = some now;
  carrier_name = some (codes "Delhivery");
  tracking_id = some s.waybill;
  delivery_provider = some (codes "DELHIVERY");
  tracking_url = s.tracking_url;
  delivery_status = some (s.status otherwise codes "Created");
}

-- `has_file` tells whether the upload holds any bytes, and `url` is the address under which the
-- written file is served.
unfoldable pub upload_packing_video : Bool → Text → Uuid → Uuid → Action World Replacement
unfolding find_seller seller_replacement update_replacement
upload_packing_video has_file url k u = do
  throw_if (not has_file) (bad_request "Video file is required")
  s ← find_seller u
  r ← seller_replacement k s
  throw_if (not (status_eq r.status approved))
      (bad_request "Replacement must be approved before packing")
  assert_seller_can_fulfill r
  now ← gets (λ w. w.now)
  update_replacement k (as_packed now url)

abbrev pub after_two : Text → Text
after_two (a ∷ b ∷ s) = s
after_two _ = []

-- `normalizeInPhone`
unfoldable pub normalize_in_phone : Text → Text
normalize_in_phone raw =
    let ds = digits_of raw in if length ds == 12 && has_country_code ds then after_two ds else ds

-- The order of a request, which the foreign key keeps.
abbrev pub order_of : Replacement → World → Option Order
order_of r w = order_row r.order_id w

abbrev pub replacement_shipment :
    Carrier → Uuid → Seller → Address → Option User → Text → Text → ShipmentRequest
unfolding find_pin normalize_in_phone
replacement_shipment c k s a buyer phone drop = record {
  order_id = k;
  pickup_location = unless_blank c.pickup_location otherwise trim s.business_name;
  origin_pin = trim (a.zip otherwise []);
  destination_pin = find_pin drop otherwise [];
  consignee_name = name_of buyer;
  consignee_phone = normalize_in_phone phone;
  consignee_address = drop;
  weight_grams = 500;
}

-- What the handler reads before it asks the carrier: the shipment that it requests.
unfoldable pub replacement_request :
    Carrier → Uuid → Seller → Order → Uuid → Action World ShipmentRequest
unfolding find_pin
replacement_request c k s o u = do
  a ←
      required (← gets (pickup_address u))
        (bad_request "Pickup address is missing. Please update pickup address in store profile.")
  buyer ← gets (buyer_user o.buyer_id)
  phone ← required (phone_of buyer) (bad_request "Buyer phone is missing")
  drop ←
      required (unless_blank o.shipping_address) (bad_request "Order shipping address is missing")
  throw_if (pin_missing (trim (a.zip otherwise [])))
      (bad_request "Pickup pincode is missing or invalid. Update pickup address in store profile.")
  throw_if (pin_missing (find_pin drop otherwise []))
      (bad_request "Could not find a valid 6-digit pincode in the shipping address.")
  throw_if (not c.configured)
      (service_unavailable "Delhivery is not configured on the server. Contact support.")
  pure (replacement_shipment c k s a buyer phone drop)

unfoldable pub request_delivery : Carrier → Uuid → Uuid → Action World Replacement
unfolding find_seller seller_replacement replacement_request update_replacement
request_delivery c k u = do
  s ← find_seller u
  r ← seller_replacement k s
  throw_if (not (status_eq r.status packed)) (bad_request "Replacement must be packed first")
  assert_seller_can_fulfill r
  o ← required (← gets (order_of r)) internal
  request ← replacement_request c k s o u
  shipment ←
      required (with_waybill (c.create_shipment request))
        (bad_request "Delhivery could not create shipment")
  now ← gets (λ w. w.now)
  update_replacement k (as_shipped now shipment)
