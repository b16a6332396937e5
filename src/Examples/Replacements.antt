-- ===== src/Examples/Replacements.antt =====
-- Replacement requests, from the request to the delivery.
use vybekart_backend.Shared.{◌≡◌, refl, Bool, true, false, Option, none, some, List, [], ◌∷◌, arith}
use vybekart_backend.Shared.Text.{codes, text_eq, trim}
use vybekart_backend.Shared.Action.{Result, ok, err}
use vybekart_backend.Data.{World}
use vybekart_backend.Data.Orders.{Order, OrderStatus}
use vybekart_backend.Data.Replacements.{
  Replacement, ReplacementStatus, delivered, awaiting_payment, rejected, balance_paid,
}
use vybekart_backend.Data.Table.{row, update}
use vybekart_backend.Payments.Balance.{verify_balance_payment, create_balance_order}
use vybekart_backend.Replacements.Fulfil.{upload_packing_video, request_delivery}
use vybekart_backend.Replacements.Track.{deliver}
use vybekart_backend.Json.{get}
use vybekart_backend.Variants.Parse.{parse_items, parse_item, item_rows}
use vybekart_backend.Variants.Stock.{has_items, find_item}
use vybekart_backend.Payments.Verify.{Payment}
use vybekart_backend.Replacements.Rules.{replacement_row}
use vybekart_backend.Replacements.Request.{ReplacementInput, create_for_order}
use vybekart_backend.Replacements.Status.Later.{RowLater}
use vybekart_backend.Replacements.Status.Count.{open_count}
use vybekart_backend.Replacements.Status.Run.{
  Call, orders_balance, pays_balance, films, hands_over, delivers, opens, IsOrderly, handle, act,
  history, history-IsOrderly, run_calls, run_calls-RowLater,
}
use vybekart_backend.Payments.Balance.{BalanceResult}
use vybekart_backend.Payments.Balance.Again.{verify_balance-again}
use vybekart_backend.Timelines.Orders.{requests_of, can_request_replacement}
use vybekart_backend.Timelines.Offer.{create_for_order-offered}
use vybekart_backend.Data.{Seller}
use vybekart_backend.Shared.Runs.{Runs}
use vybekart_backend.Replacements.Status.{covered}
use vybekart_backend.Replacements.Status.Progress.{IsWritten, upload_packing_video-Runs}
use vybekart_backend.Timelines.Replacements.{seller_next_action}
use vybekart_backend.Timelines.Actions.{seller_next_action-Runs}
use vybekart_backend.Examples.{plain_js, carrier, gateway, new_order, shop}

-- An order that has arrived.
abbrev pub arrived_order : Order
arrived_order = record (new_order OrderStatus.delivered) { delivered_at = some 900 }

-- The first line again, in the dearer size.
abbrev in_large : ReplacementInput
in_large = record {
  reason = codes "Too small";
  description = none;
  order_item_id = 101;
  replacement_variant_id = some (codes "L");
  photo_urls = [];
}

abbrev balance : Payment
balance = record {
  razorpay_order_id = 900;
  razorpay_payment_id = 901;
  razorpay_signature = codes "sig";
}

abbrev way : List Call
way =
    orders_balance 500 1
    ∷ pays_balance 500 1 balance
    ∷ films true (codes "v") 500 2
    ∷ hands_over 500 2
    ∷ delivers 500 2
    ∷ []

abbrev pub first_day : World
first_day = record (shop (arrived_order ∷ [])) { fresh = 500 }

first_day-IsOrderly : IsOrderly first_day
unfolding open_count
first_day-IsOrderly = record { sound = tt; single = λ j. omega arith }

-- The request is made, and made once more.
abbrev opened : World
opened =
    history plain_js carrier gateway (opens 1 100 in_large ∷ opens 1 100 in_large ∷ []) first_day

history-IsOrderly_example : IsOrderly opened
history-IsOrderly_example =
    history-IsOrderly plain_js carrier gateway (opens 1 100 in_large ∷ opens 1 100 in_large ∷ [])
      first_day first_day-IsOrderly

run_calls-RowLater_example :
    RowLater
      (replacement_row 500 opened)
      (replacement_row 500 (run_calls plain_js carrier gateway way opened))
run_calls-RowLater_example =
    run_calls-RowLater plain_js carrier gateway way opened 500 history-IsOrderly_example

abbrev status_at : World → Option ReplacementStatus
status_at w = elim (replacement_row 500 w) [ none ↦ none | some r ↦ some r.status ]

bought_later : status_at opened ≡ some awaiting_payment
unfolding row handle create_for_order has_items parse_items get text_eq item_rows parse_item trim
    find_item
bought_later = refl

way_ends : status_at (run_calls plain_js carrier gateway way opened) ≡ some delivered
unfolding row handle create_for_order has_items parse_items get text_eq item_rows parse_item trim
    find_item act deliver request_delivery upload_packing_video verify_balance_payment
    create_balance_order update
way_ends = refl

-- What an action returned, if it did.
unfoldable pub is_ok : {A : Type 0} → Result A → Bool
is_ok (ok a) = true
is_ok (err e) = false

unfoldable pub value : {A : Type 0} → A → Result A → A
value d (ok a) = a
value d (err e) = d

pub returned :
    {A : Type 0} (d : A) (r : Result A) (t : World)
    → is_ok r ≡ true
    → ◌≡◌ {A = Result A × World} (r, t) (ok (value d r), t)
unfolding is_ok value
returned d (ok a) t h = refl
returned d (err e) t h = cc

-- A request that is packed.
abbrev pub packed_request : Replacement
packed_request = record {
  id = 500;
  order_id = 100;
  buyer_id = 10;
  seller_id = 20;
  order_item_id = 101;
  reason = codes "Too small";
  description = none;
  photo_urls = [];
  admin_note = none;
  status = ReplacementStatus.packed;
  auto_approved = true;
  decided_at = some 950;
  decided_by = none;
  replacement_variant_id = some (codes "L");
  replacement_variant_label = some (codes "L");
  original_unit_price = 50000;
  replacement_unit_price = 60000;
  balance_due = 10000;
  balance_payment_status = balance_paid;
  razorpay_order_id = some 900;
  razorpay_payment_id = some 901;
  packing_video_url = some (codes "v");
  packed_at = some 960;
  shipped_at = none;
  delivered_at = none;
  tracking_id = none;
  tracking_url = none;
  carrier_name = none;
  delivery_provider = none;
  delivery_status = none;
  created_at = 940;
}

-- The request of the history above is accepted.
accepted : is_ok (create_for_order plain_js 1 100 in_large first_day).0 ≡ true
unfolding is_ok row create_for_order has_items parse_items get text_eq item_rows parse_item trim
    find_item
accepted = refl

create_for_order-offered_example :
    can_request_replacement arrived_order (requests_of 100 first_day) ≡ true
unfolding row
create_for_order-offered_example =
    create_for_order-offered plain_js 1 100 in_large first_day _ _ arrived_order refl
      (returned packed_request _ _ accepted)

-- The balance is ordered, and paid.
abbrev billed : World
billed = run_calls plain_js carrier gateway (orders_balance 500 1 ∷ []) opened

no_result : BalanceResult
no_result = record { replacement_id = 0; status = rejected }

bought : is_ok (verify_balance_payment gateway 1 500 balance billed).0 ≡ true
unfolding is_ok row handle create_for_order has_items parse_items get text_eq item_rows parse_item
    trim find_item act verify_balance_payment create_balance_order update
bought = refl

verify_balance-again_example :
    verify_balance_payment gateway 1 500 balance
      (verify_balance_payment gateway 1 500 balance billed).1
    ≡ (
      ok (value no_result (verify_balance_payment gateway 1 500 balance billed).0),
      (verify_balance_payment gateway 1 500 balance billed).1,
    )
verify_balance-again_example =
    verify_balance-again gateway 1 500 balance billed _ _ (returned no_result _ _ bought)

-- A request that its seller packs.
abbrev approved_request : Replacement
approved_request = record packed_request { status = ReplacementStatus.approved }

abbrev with_one : Replacement → World
with_one r = record first_day { replacements = r ∷ [] }

seller_two : Seller
seller_two = record {
  id = 20;
  user_id = 2;
  business_name = codes "Ravi Textiles";
  commission_waiver_active = false;
}

upload_packing_video-Runs_example :
    Runs
      (IsWritten 500 ReplacementStatus.packed)
      (with_one approved_request)
      (upload_packing_video true (codes "v") 500 2)
unfolding row seller_two
upload_packing_video-Runs_example =
    upload_packing_video-Runs (codes "v") 500 2 (with_one approved_request) seller_two
      approved_request refl refl refl refl (covered refl, refl)

-- Approved, and not yet filmed.
abbrev unfilmed_request : Replacement
unfilmed_request = record approved_request { packing_video_url = none; packed_at = none }

seller_next_action-Runs_example :
    Runs
      (IsWritten 500 ReplacementStatus.packed)
      (with_one unfilmed_request)
      (upload_packing_video true (codes "v") 500 2)
unfolding row seller_two seller_next_action
seller_next_action-Runs_example =
    seller_next_action-Runs (codes "v") 500 2 (with_one unfilmed_request) seller_two
      unfilmed_request refl refl refl (covered refl, refl) refl
