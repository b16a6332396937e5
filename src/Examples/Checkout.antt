-- ===== src/Examples/Checkout.antt =====
-- Carts, checkouts and payments.
use vybekart_backend.Shared.{arith, List, if◌then◌else◌, ℕ, ◌≡◌, refl, false, none, some, [], ◌∷◌}
use vybekart_backend.Shared.Text.{codes, text_eq, trim}
use vybekart_backend.Shared.Action.{Result, ok, err}
use vybekart_backend.Json.{get}
use vybekart_backend.Variants.Parse.{parse_items, item_rows, parse_item, parse_options}
use vybekart_backend.Variants.Stock.{has_items, find_item, apply_stock_delta, total_stock}
use vybekart_backend.Variants.Write.{write_variants}
use vybekart_backend.Shared.Int.{◌+ℤ◌, ◌-ℤ◌}
use vybekart_backend.Data.Table.{row, update}
use vybekart_backend.Orders.Create.{total_from}
use vybekart_backend.Data.{World}
use vybekart_backend.Data.Orders.{paid}
use vybekart_backend.Cart.View.{CartView, get_cart}
use vybekart_backend.Cart.Edit.{CartInput, variant_key, put_line}
use vybekart_backend.Cart.Lines.{quantity_at, same_key, quantity_at-put_line}
use vybekart_backend.Data.Carts.{CartItem}
use vybekart_backend.Cart.Totals.{IsTotalled, get_cart-IsTotalled}
use vybekart_backend.Checkout.Place.{Placed}
use vybekart_backend.Payments.Verify.{Payment, verify_and_checkout}
use vybekart_backend.Payments.Settled.{IsPlaced}
use vybekart_backend.Payments.Settled.Returned.{verify-IsPlaced}
use vybekart_backend.Payments.Settled.Again.{IsSettled, verify_when_settled, verify_again}
use vybekart_backend.Examples.{plain_js, carrier, gateway, new_order, cart_line, shop}

-- The buyer's payment for the order 900 of the gateway.
abbrev payment : Payment
payment = record {
  razorpay_order_id = 900;
  razorpay_payment_id = 901;
  razorpay_signature = codes "sig";
}

verify_again_example :
    (verify_and_checkout plain_js carrier gateway false 1 payment
      (verify_and_checkout plain_js carrier gateway false 1 payment (shop [])).1).1
    ≡ (verify_and_checkout plain_js carrier gateway false 1 payment (shop [])).1
verify_again_example = verify_again plain_js carrier gateway false 1 payment (shop [])

-- The buyer pays, but the cart is gone: one refund is asked for, however often the payment is verified.
abbrev no_cart : World
no_cart = record (shop []) { carts = [] }

one_refund :
    (verify_and_checkout plain_js carrier gateway false 1 payment
      (verify_and_checkout plain_js carrier gateway false 1 payment no_cart).1).1.refunds
    ≡ record { razorpay_payment_id = 901; amount_paise = 124000 } ∷ []
unfolding verify_and_checkout text_eq row
one_refund = refl

-- An order that the payment has paid for.
abbrev settled_shop : World
settled_shop = shop (record (new_order paid) { razorpay_payment_id = some 901 } ∷ [])

IsSettled-first : IsSettled 901 settled_shop
IsSettled-first = refl

verify_when_settled_example :
    (verify_and_checkout plain_js carrier gateway false 1 payment settled_shop).1 ≡ settled_shop
verify_when_settled_example =
    verify_when_settled plain_js carrier gateway false 1 payment settled_shop IsSettled-first

-- The cart that user 1 sees, two pieces for 500 rupees and one for 200.
abbrev shown : Result CartView × World → CartView
shown (ok v, t) = v
shown (err e, t) = record {
  items = [];
  subtotal = 0;
  shipping = 0;
  total = 0;
  stream_id = none;
  stream_title = none;
  checkout_expires_at = none;
  seconds_remaining = 0;
}

seen :
    get_cart plain_js 1 (shop [])
    ≡ (ok (shown (get_cart plain_js 1 (shop []))), (get_cart plain_js 1 (shop [])).1)
unfolding get_cart row
seen = refl

seen_total : (shown (get_cart plain_js 1 (shop []))).total ≡ 129000
unfolding get_cart row has_items parse_items get text_eq item_rows parse_item trim find_item
seen_total = refl

get_cart-IsTotalled_example : IsTotalled (shown (get_cart plain_js 1 (shop [])))
get_cart-IsTotalled_example = get_cart-IsTotalled plain_js 1 (shop []) _ _ seen

-- The payment is verified: the order is placed, paid for, and costs 1200 rupees and 40 for delivery.
abbrev placed_total : Result Placed → ℕ
placed_total (ok p) = p.total_amount
placed_total (err e) = 0

placed :
    placed_total (verify_and_checkout plain_js carrier gateway false 1 payment (shop [])).0 ≡ 124000
unfolding verify_and_checkout row has_items parse_items get text_eq item_rows parse_item trim
    find_item apply_stock_delta total_stock update ◌+ℤ◌ ◌-ℤ◌ write_variants parse_options total_from
placed = refl

-- The buyer asks for five pieces of size M, where the cart has two.
abbrev five_more : CartInput
five_more = record {
  product_id = 40;
  quantity = 5;
  size = none;
  color = none;
  variant_id = some (codes " M ");
  variant_label = none;
  stream_id = some 30;
  stream_title = none;
}

abbrev in_cart : List CartItem
in_cart = cart_line 40 2 (some (codes "M")) ∷ cart_line 41 1 none ∷ []

quantity_at-put_line_example : quantity_at 40 (codes "M") (put_line five_more in_cart) ≡ (
    if same_key 40 (variant_key (some (codes " M "))) 40 (codes "M")
    then some 5
    else quantity_at 40 (codes "M") in_cart)
quantity_at-put_line_example = quantity_at-put_line five_more 40 (codes "M") in_cart

-- The outcome of the verification.
abbrev answer : Result Placed → Placed
answer (ok p) = p
answer (err e) = record {
  order_id = 0;
  status = paid;
  total_amount = 0;
  delivery_fee = 0;
  shipping_address = [];
}

charged-ok :
    (r : Result Placed) (t : World)
    → placed_total r ≡ 124000
    → ◌≡◌ {A = Result Placed × World} (r, t) (ok (answer r), t)
charged-ok (ok p) t h = refl
charged-ok (err e) t h = absurd (omega (arith, h))

verified : verify_and_checkout plain_js carrier gateway false 1 payment (shop []) ≡ (
  ok (answer (verify_and_checkout plain_js carrier gateway false 1 payment (shop [])).0),
  (verify_and_checkout plain_js carrier gateway false 1 payment (shop [])).1,
)
verified = charged-ok _ _ placed

verify-IsPlaced_example :
    IsPlaced 901 (verify_and_checkout plain_js carrier gateway false 1 payment (shop [])).1
verify-IsPlaced_example =
    verify-IsPlaced plain_js carrier gateway false 1 payment (shop []) _ _ verified
