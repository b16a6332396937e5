-- ===== src/Replacements/Status/Seller.antt =====
-- Packing and shipping, as steps of the request that they name.
use vybekart_backend.Shared.{◌≡◌, refl, ap, ◌∙◌, Bool, [], not, ◌otherwise◌, ltb}
use mathlib.Core.Path.{subst}
use vybekart_backend.Shared.Text.{Text, trim}
use vybekart_backend.Shared.Action.{bad_request, service_unavailable, internal}
use vybekart_backend.Shared.Reads.{
  Reads, Reads-bind, require_read-Reads, gets-Reads, pure-Reads, throw_if-Reads, required-Reads,
}
use vybekart_backend.Data.{World, Uuid, Seller, Time}
use vybekart_backend.Data.Orders.{Order}
use vybekart_backend.Data.Replacements.{Replacement, approved, packed}
use vybekart_backend.Data.Writes.{after}
use vybekart_backend.Orders.Pin.{find_pin}
use vybekart_backend.Orders.Carrier.{Carrier, Shipment}
use vybekart_backend.Orders.Packing.{
  unless_blank, pickup_address, buyer_user, phone_of, pin_missing, with_waybill,
}
use vybekart_backend.Orders.Status.Steps.{find_seller-Reads}
use vybekart_backend.Replacements.Rules.{status_eq}
use vybekart_backend.Replacements.Fulfil.{
  as_packed, as_shipped, upload_packing_video, order_of, replacement_shipment, replacement_request,
  request_delivery,
}
use vybekart_backend.Replacements.Status.{
  Edge, goes, IsCovered, free, covered, Papers, Legal, Outcome,
}
use vybekart_backend.Replacements.Status.Steps.{
  is_status, seller_replacement-Reads, assert_seller_can_fulfill-Reads, update_replacement-Outcome,
}

-- What is owed does not depend on the rest of the request.
pub IsCovered-same :
    (r r' : Replacement)
    → r'.balance_payment_status ≡ r.balance_payment_status
    → r'.balance_due ≡ r.balance_due
    → r'.razorpay_order_id ≡ r.razorpay_order_id
    → IsCovered r
    → IsCovered r'
IsCovered-same r r' p d o (free a b c) = free (p ∙ a) (ap (λ n. ltb 0 n) d ∙ b) (o ∙ c)
IsCovered-same r r' p d o (covered a) = covered (p ∙ a)

packed-Legal :
    (r : Replacement) (now : Time) (url : Text)
    → r.status ≡ approved
    → Legal r (as_packed now url r)
packed-Legal r now url e sound =
    let (paid, quiet) = subst (λ s. Papers s r) e sound in
    record {
      move = goes (rw e Edge.filmed);
      sound = (IsCovered-same r _ refl refl refl paid, refl, refl, quiet);
      same_order = refl;
    }

pub upload_packing_video-Outcome :
    (has_file : Bool) (url : Text) (k u : Uuid) (w : World)
    → Outcome k w (upload_packing_video has_file url k u)
unfolding upload_packing_video
upload_packing_video-Outcome has_file url k u w =
    after (throw_if-Reads w (not has_file) (bad_request "Video file is required")) λ _ _.
      after (find_seller-Reads u w) λ s _. after (seller_replacement-Reads k s w) λ r there.
        after
          (throw_if-Reads w (not (status_eq r.status approved))
            (bad_request "Replacement must be approved before packing"))
          λ _ h. after (assert_seller_can_fulfill-Reads r w) λ _ _.
            after (gets-Reads w (λ v. v.now)) λ now _.
              update_replacement-Outcome k (as_packed now url) w r there
                (packed-Legal r now url (is_status r approved h)) λ x. refl

replacement_request-Reads :
    (c : Carrier) (k : Uuid) (s : Seller) (o : Order) (u : Uuid) (w : World)
    → Reads w (λ _. Unit {0}) (replacement_request c k s o u)
unfolding replacement_request
replacement_request-Reads c k s o u w = Reads-bind (gets-Reads w (pickup_address u)) λ found_a _.
    Reads-bind
      (required-Reads w found_a
        (bad_request "Pickup address is missing. Please update pickup address in store profile."))
      λ a _. Reads-bind (gets-Reads w (buyer_user o.buyer_id)) λ buyer _.
        Reads-bind (required-Reads w (phone_of buyer) (bad_request "Buyer phone is missing"))
          λ phone _.
            Reads-bind
              (required-Reads w (unless_blank o.shipping_address)
                (bad_request "Order shipping address is missing"))
              λ drop _.
                Reads-bind
                  (throw_if-Reads w (pin_missing (trim (a.zip otherwise []))) (
                    bad_request
                      "Pickup pincode is missing or invalid. Update pickup address in store profile."))
                  λ _ _.
                    Reads-bind
                      (throw_if-Reads w (pin_missing (find_pin drop otherwise [])) (
                        bad_request
                          "Could not find a valid 6-digit pincode in the shipping address."))
                      λ _ _.
                        Reads-bind
                          (throw_if-Reads w (not c.configured) (
                            service_unavailable
                              "Delhivery is not configured on the server. Contact support."))
                          λ _ _.
                            pure-Reads w (λ _. Unit) (replacement_shipment c k s a buyer phone drop)
                              tt

shipped-Legal :
    (r : Replacement) (now : Time) (s : Shipment) → r.status ≡ packed → Legal r (as_shipped now s r)
shipped-Legal r now s e sound =
    let (paid, _, _, _) = subst (λ s. Papers s r) e sound in
    record {
      move = goes (rw e Edge.sent);
      sound = (IsCovered-same r _ refl refl refl paid, refl, refl);
      same_order = refl;
    }

pub request_delivery-Outcome :
    (c : Carrier) (k u : Uuid) (w : World) → Outcome k w (request_delivery c k u)
unfolding request_delivery
request_delivery-Outcome c k u w = after (find_seller-Reads u w) λ s _.
    after (seller_replacement-Reads k s w) λ r there.
      after
        (throw_if-Reads w (not (status_eq r.status packed))
          (bad_request "Replacement must be packed first"))
        λ _ h. after (assert_seller_can_fulfill-Reads r w) λ _ _.
          after (require_read-Reads w (order_of r) internal) λ o _.
            after (replacement_request-Reads c k s o u w) λ request _.
              after
                (required-Reads w (with_waybill (c.create_shipment request))
                  (bad_request "Delhivery could not create shipment"))
                λ shipment _. after (gets-Reads w (λ v. v.now)) λ now _.
                  update_replacement-Outcome k (as_shipped now shipment) w r there
                    (shipped-Legal r now shipment (is_status r packed h)) λ x. refl
