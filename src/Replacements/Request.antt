-- ===== src/Replacements/Request.antt =====
-- `createForOrder` and `getVariantOptionsForOrder`.
use vybekart_backend.Shared.{
  ℕ, ◌+◌, ◌-◌, Bool, true, false, not, ◌&&◌, Option, none, some, List, ◌∷◌, map, ltb, ◌==◌,
  if◌then◌else◌, ◌or◌,
}
use vybekart_backend.Shared.Lists.{find}
use vybekart_backend.Shared.Int.{pos, ltb_ℤ}
use vybekart_backend.Shared.Text.{Text}
use vybekart_backend.Shared.Action.{
  Action, bad_request, not_found, pure, gets, required, throw, throw_if, of_result, modify, ◌>>=◌,
  ◌>>◌,
}
use vybekart_backend.Json.{Conversions}
use vybekart_backend.Variants.Parse.{VariantItem, parse_items}
use vybekart_backend.Data.{World, Uuid, Time}
use vybekart_backend.Data.Orders.{Order, OrderItem, OrderStatus}
use vybekart_backend.Data.Replacements.{
  Replacement, ReplacementStatus, pending_admin_review, rejected, delivered, BalanceStatus,
  no_balance,
}
use vybekart_backend.Orders.Lookup.{order_row, product_row, buyer_row}
use vybekart_backend.Orders.Lookup
use vybekart_backend.Orders.Buyer.{is_owner}
use vybekart_backend.Ratings.Buyer.{get_buyer_score}
use vybekart_backend.Ratings.Seller.{days, on_replacement_requested}
use vybekart_backend.Replacements.Rules.{
  status_eq, Pricing, compute_pricing, resolve_approval_status,
}

-- SUBMIT_DAYS, and AUTO_APPROVE_MIN_SCORE in hundredths of a star
abbrev pub submit_days : ℕ
submit_days = 3

abbrev pub auto_approve_min_score : ℕ
auto_approve_min_score = 300

-- `CreateReplacementDto`
pub record ReplacementInput : Type 0 where
  pub reason : Text
  pub description : Option Text
  pub order_item_id : Uuid
  pub replacement_variant_id : Option Text
  pub photo_urls : List Text

-- `order.findFirst({ where: { id, buyerId } })`
abbrev pub own_order : Uuid → Uuid → World → Option Order
own_order k b w = elim (order_row k w) [
  | none ↦ none
  | some o ↦ if is_owner o.buyer_id b then some o else none
]

-- Past the deadline: delivery plus three days, in a time zone without daylight saving.
abbrev pub is_late : Time → Time → Bool
is_late now delivered_at = ltb (delivered_at + days submit_days) now

-- A request for the order that has not been rejected.
abbrev pub is_open_for : Uuid → Replacement → Bool
is_open_for k r = r.order_id == k && not (status_eq r.status rejected)

abbrev pub open_request : Uuid → World → Option Replacement
open_request k w = find (is_open_for k) w.replacements

abbrev pub refuse_second : Option Replacement → Action World (Unit {0})
refuse_second none = pure tt
refuse_second (some r) = throw (
    bad_request (
      if status_eq r.status delivered
      then "A replacement has already been completed for this order"
      else "A replacement request already exists for this order"))

abbrev pub not_replaceable : Option Bool → Bool
not_replaceable (some false) = true
not_replaceable _ = false

-- The status, the state of the balance and the time of the decision of a new request.
abbrev pub first_status : Bool → ℕ → Time → ReplacementStatus × BalanceStatus × Option Time
first_status true balance now =
    let (status, payment) = resolve_approval_status balance in (status, payment, some now)
first_status false balance now = (pending_admin_review, no_balance, none)

abbrev pub new_replacement :
    Uuid → Uuid → Uuid → Order → OrderItem → ReplacementInput → Pricing → Bool → Time → Replacement
new_replacement id buyer seller o i d p auto now = record {
  id = id;
  order_id = o.id;
  buyer_id = buyer;
  seller_id = seller;
  order_item_id = i.id;
  reason = d.reason;
  description = d.description;
  photo_urls = d.photo_urls;
  admin_note = none;
  status = (first_status auto p.balance_due now).0;
  auto_approved = auto;
  decided_at = (first_status auto p.balance_due now).2;
  decided_by = none;
  replacement_variant_id = d.replacement_variant_id or i.variant_id;
  replacement_variant_label = p.replacement_variant_label or i.variant_label;
  original_unit_price = p.original_unit_price;
  replacement_unit_price = p.replacement_unit_price;
  balance_due = p.balance_due;
  balance_payment_status = (first_status auto p.balance_due now).1;
  razorpay_order_id = none;
  razorpay_payment_id = none;
  packing_video_url = none;
  packed_at = none;
  shipped_at = none;
  delivered_at = none;
  tracking_id = none;
  tracking_url = none;
  carrier_name = none;
  delivery_provider = none;
  delivery_status = none;
  created_at = now;
}

abbrev pub insert_replacement : Replacement → Action World (Unit {0})
insert_replacement r =
    modify (λ w. record w { replacements = r ∷ w.replacements; fresh = w.fresh + 1 })

-- The row is created, and both ratings are told.
unfoldable pub enter_replacement : Replacement → Action World Replacement
unfolding on_replacement_requested
enter_replacement r = do
  insert_replacement r
  on_replacement_requested r.buyer_id r.seller_id
  pure r

-- From the point where the order may be replaced. The e-mails that follow are not modelled.
unfoldable pub enter_request :
    Conversions → Uuid → Order → ReplacementInput → Time → Action World Replacement
unfolding compute_pricing get_buyer_score enter_replacement
enter_request js b o d now = do
  i ← required (find (λ x. x.id == d.order_item_id) o.items) (bad_request "Order line not found")
  p ← required (← gets (product_row i.product_id)) (bad_request "Order line not found")
  throw_if (not_replaceable p.returnable) (bad_request "This product is not replaceable")
  pricing ← of_result (compute_pricing js i p d.replacement_variant_id)
  score ← get_buyer_score b
  id ← gets (λ w. w.fresh)
  enter_replacement (
      new_replacement id b p.seller_id o i d pricing
        (not (ltb_ℤ score (pos auto_approve_min_score))) now)

unfoldable pub create_for_order :
    Conversions → Uuid → Uuid → ReplacementInput → Action World Replacement
unfolding enter_request
create_for_order js u k d = do
  b ← required (← gets (buyer_row u)) (not_found "Buyer not found")
  o ← required (← gets (own_order k b.id)) (not_found "Order not found")
  throw_if (not (Lookup.status_eq o.status OrderStatus.delivered))
      (bad_request "Only delivered orders can be replaced")
  at ← required o.delivered_at (bad_request "Order delivery date missing")
  now ← gets (λ w. w.now)
  throw_if (is_late now at)
      (bad_request "Replacement requests must be submitted within 3 days of delivery")
  existing ← gets (open_request k)
  refuse_second existing
  enter_request js b.id o d now

-- One of the variants that a line can be replaced by.
pub record ReplacementOption : Type 0 where
  pub item : VariantItem
  pub balance_due : ℕ

unfoldable pub variant_options_for_order :
    Conversions → Uuid → Uuid → Uuid → Action World (List ReplacementOption)
unfolding parse_items
variant_options_for_order js u k item = do
  b ← required (← gets (buyer_row u)) (not_found "Buyer not found")
  o ← required (← gets (own_order k b.id)) (not_found "Order not found")
  i ← required (find (λ x. x.id == item) o.items) (bad_request "Order line not found")
  p ← required (← gets (product_row i.product_id)) (bad_request "Order line not found")
  pure (
      map (λ v. record { item = v; balance_due = v.selling_price - i.price })
        (parse_items js p.variants))
