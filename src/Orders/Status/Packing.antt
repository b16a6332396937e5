-- ===== src/Orders/Status/Packing.antt =====
-- The handlers of packing, of the carrier and of the buyer, as steps of the order that they name.
use vybekart_backend.Shared.{refl, Bool, [], not, is_some, ◌otherwise◌}
use vybekart_backend.Shared.Text.{Text, trim}
use vybekart_backend.Shared.Action.{bad_request, service_unavailable}
use vybekart_backend.Data.{World, Uuid, Seller}
use vybekart_backend.Data.Orders.{Order, paid, packed}
use vybekart_backend.Orders.Lookup.{status_eq}
use vybekart_backend.Orders.Pin.{find_pin}
use vybekart_backend.Orders.Carrier.{Carrier}
use vybekart_backend.Orders.Status.{Edge, Outcome, moves}
use vybekart_backend.Shared.Reads.{
  Reads, Reads-bind, gets-Reads, pure-Reads, throw_if-Reads, required-Reads,
}
use vybekart_backend.Data.Writes.{after}
use vybekart_backend.Orders.Status.Steps.{
  find_seller-Reads, find_order-Reads, require_seller_product-Reads, update_order-Outcome,
}
use vybekart_backend.Orders.Status.Handlers.{is_status, not-false}
use vybekart_backend.Orders.Packing.{
  as_packed, upload_packing_video, unless_blank, pickup_address, buyer_user, phone_of, pin_missing,
  with_waybill, request_of, shipment_for, shipped_by_carrier, request_delivery,
}

pub upload_packing_video-Outcome :
    (has_file : Bool) (url : Text) (k u : Uuid) (w : World)
    → Outcome k w (upload_packing_video has_file url k u)
unfolding upload_packing_video
upload_packing_video-Outcome has_file url k u w =
    after (throw_if-Reads w (not has_file) (bad_request "Video file is required")) λ _ _.
      after (find_seller-Reads u w) λ s _. after (find_order-Reads k w) λ o there.
        after
          (throw_if-Reads w (not (is_some o.stream_id))
            (bad_request "Packing video applies to live stream orders only"))
          λ _ live. after (require_seller_product-Reads s o w) λ _ _.
            after
              (throw_if-Reads w (not (status_eq o.status paid))
                (bad_request "Order must be accepted (paid) before packing"))
              λ _ h. after (gets-Reads w (λ v. v.now)) λ now _.
                update_order-Outcome k (as_packed now url) w o there
                  (record {
                    step = moves (rw (is_status o paid h) Edge.filmed);
                    kept = λ p. (not-false _ live, refl, refl, rw (is_status o paid h) at p);
                  })
                  λ x. refl

shipment_for-Reads :
    (c : Carrier) (k : Uuid) (s : Seller) (o : Order) (u : Uuid) (w : World)
    → Reads w (λ _. Unit {0}) (shipment_for c k s o u)
unfolding shipment_for
shipment_for-Reads c k s o u w = Reads-bind (gets-Reads w (pickup_address u)) λ found_a _.
    Reads-bind
      (required-Reads w found_a
        (bad_request "Pickup address is missing. Please update pickup address in store profile."))
      λ a _. Reads-bind (gets-Reads w (buyer_user o.buyer_id)) λ buyer _.
        Reads-bind (required-Reads w (phone_of buyer) (bad_request "Buyer phone is missing"))
          λ phone _.
            Reads-bind
              (required-Reads w (unless_blank o.shipping_address)
                (bad_request "Order shipping address is missing"))
              λ drop _.
                Reads-bind
                  (throw_if-Reads w (pin_missing (trim (a.zip otherwise []))) (
                    bad_request
                      "Pickup pincode is missing or invalid. Update pickup address in store profile."))
                  λ _ _.
                    Reads-bind
                      (throw_if-Reads w (pin_missing (find_pin drop otherwise [])) (
                        bad_request
                          "Could not find a valid 6-digit pincode in the shipping address."))
                      λ _ _.
                        Reads-bind
                          (throw_if-Reads w (not c.configured) (
                            service_unavailable
                              "Delhivery is not configured on the server. Contact support."))
                          λ _ _. pure-Reads w (λ _. Unit) (request_of c k s o a buyer phone drop) tt

pub request_delivery-Outcome :
    (c : Carrier) (k u : Uuid) (w : World) → Outcome k w (request_delivery c k u)
unfolding request_delivery
request_delivery-Outcome c k u w = after (find_seller-Reads u w) λ s _.
    after (find_order-Reads k w) λ o there.
      after
        (throw_if-Reads w (not (is_some o.stream_id))
          (bad_request "Only live-originated orders use this action"))
        λ _ _. after (require_seller_product-Reads s o w) λ _ _.
          after
            (throw_if-Reads w (not (status_eq o.status packed))
              (bad_request "Order must be packed first"))
            λ _ h. after (shipment_for-Reads c k s o u w) λ request _.
              after
                (required-Reads w (with_waybill (c.create_shipment request))
                  (bad_request "Delhivery could not create shipment"))
                λ shipment _. after (gets-Reads w (λ v. v.now)) λ now _.
                  update_order-Outcome k (shipped_by_carrier now shipment) w o there
                    (record {
                      step = moves (rw (is_status o packed h) Edge.handed_over);
                      kept = λ _. (refl, refl, refl);
                    })
                    λ x. refl
