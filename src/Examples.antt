-- ===== src/Examples.antt =====
-- Test data and concrete runs of the models.
pub mod Columns
pub mod Orders
pub mod Checkout
pub mod Replacements
pub mod Pages
use vybekart_backend.Shared.{ℕ, true, false, Option, none, some, List, [], ◌∷◌, ◌*◌}
use vybekart_backend.Shared.Int.{pos}
use vybekart_backend.Shared.Text.{Text, codes}
use vybekart_backend.Json.{
  Conversions, Value, nan, fin, null, num, str, arr, obj, Values, nil, cons, end, field,
}
use vybekart_backend.Data.{
  World, User, Buyer, Seller, Address, shipping, pickup, Stream, Product, Uuid,
}
use vybekart_backend.Data.Orders.{Order, OrderItem, OrderStatus, pending, paid}
use vybekart_backend.Data.Carts.{CartEntry, CartItem, saved, PendingPayment}
use vybekart_backend.Orders.Carrier.{Carrier, Shipment}
use vybekart_backend.Payments.Gateway.{Gateway}

abbrev pub plain_js : Conversions
plain_js = record { number_of = λ _. nan; text_of = λ _. codes "?" }

abbrev pub carrier : Carrier
carrier = record {
  configured = true;
  create_shipment =
      λ _. some (record { waybill = codes "WB1"; tracking_url = none; status = none });
  track = λ _. some (codes "In Transit");
  shipping_cost = λ _ _ _. some 4000;
  pickup_location = none;
}

-- A gateway that signs every payment with the same text and can refund.
abbrev pub gateway : Gateway
gateway = record {
  configured = true;
  has_secret = true;
  signed = λ _ _. codes "sig";
  create_order = λ _. some 900;
  refund = λ _ _. true;
}

-- A column with one option and two variants, M and L, of which `m` and `l` are in stock.
abbrev pub variant_row : Text → ℕ → ℕ → Value
variant_row size price stock = obj (
    field (codes "id") (str size) (
      field (codes "label") (str size) (
        field (codes "selection") (obj (field (codes "Size") (str size) end)) (
          field (codes "sellingPrice") (num (fin (pos price)))
            (field (codes "stock") (num (fin (pos (stock * 100)))) end)))))

abbrev pub sizes : ℕ → ℕ → Value
sizes m l = obj (
    field (codes "options")
      (arr (
        cons
          (obj (
            field (codes "optionName") (str (codes "Size")) (
              field (codes "optionValues")
                (arr (cons (str (codes "M")) (cons (str (codes "L")) nil))) end)))
          nil))
      (field (codes "items")
        (arr (cons (variant_row (codes "M") 50000 m) (cons (variant_row (codes "L") 60000 l) nil)))
        end))

abbrev pub sized_product : Product
sized_product = record {
  id = 40;
  seller_id = 20;
  price = 50000;
  stock = pos 7;
  variants = sizes 5 2;
  returnable = none;
}

abbrev pub plain_product : Product
plain_product = record sized_product { id = 41; price = 20000; stock = pos 3; variants = null }

abbrev pub sized_line : OrderItem
sized_line = record {
  id = 101;
  product_id = 40;
  quantity = 2;
  price = 50000;
  variant_id = some (codes "M");
  variant_label = some (codes "M");
}

abbrev pub plain_line : OrderItem
plain_line = record sized_line {
  id = 102;
  product_id = 41;
  quantity = 1;
  price = 20000;
  variant_id = none;
  variant_label = none;
}

abbrev pub new_order : OrderStatus → Order
new_order status = record {
  id = 100;
  buyer_id = some 10;
  stream_id = some 30;
  shipping_address = some (codes "12 Hill Road, Mumbai 400050");
  status = status;
  total_amount = 120000;
  delivery_fee = 0;
  delivery_provider = none;
  tracking_id = none;
  tracking_url = none;
  carrier_name = none;
  delivery_status = none;
  partner_status = none;
  packing_video_url = none;
  packed_at = none;
  shipped_at = none;
  delivered_at = none;
  razorpay_order_id = none;
  razorpay_payment_id = none;
  items = sized_line ∷ plain_line ∷ [];
}

-- The lines that user 1 has in the cart, from the live stream 30.
abbrev pub cart_line : Uuid → ℕ → Option Text → CartItem
cart_line product quantity variant = record {
  product_id = product;
  quantity = quantity;
  size = none;
  color = none;
  variant_id = variant;
  variant_label = none;
}

abbrev pub cart_entry : CartEntry
cart_entry = record {
  user_id = 1;
  cart = saved (record {
    items = cart_line 40 2 (some (codes "M")) ∷ cart_line 41 1 none ∷ [];
    stream_id = some 30;
    stream_title = none;
    cart_expires_at = none;
    cart_updated_at = some 900;
  });
  expires = none;
}

abbrev pub awaiting : PendingPayment
awaiting = record {
  razorpay_order_id = 900;
  user_id = 1;
  address_id = some 50;
  shipping_address = codes "12 Hill Road, Mumbai 400050";
  amount_paise = 124000;
  subtotal = 120000;
  delivery_fee = 4000;
  delivery_provider = some (codes "DELHIVERY");
  stream_id = 30;
  expires = 1801000;
}

-- User 1 buys, user 2 sells and is live on stream 30 since the time 500.
abbrev pub shop : List Order → World
shop orders = record {
  now = 1000;
  fresh = 1000;
  users =
      record { id = 1; name = codes "Asha"; phone = some (codes "9876543210") }
      ∷ record { id = 2; name = codes "Ravi"; phone = some (codes "9876500000") }
      ∷ [];
  buyers = record { id = 10; user_id = 1 } ∷ [];
  sellers =
      record {
        id = 20;
        user_id = 2;
        business_name = codes "Ravi Textiles";
        commission_waiver_active = false;
      }
      ∷ [];
  addresses =
      record {
        id = 50;
        user_id = 1;
        type = shipping;
        formatted = codes "12 Hill Road, Mumbai 400050";
        zip = some (codes "400050");
        phone = none;
      }
      ∷ record {
        id = 51;
        user_id = 2;
        type = pickup;
        formatted = codes "4 Mill Lane, Surat 395003";
        zip = some (codes "395003");
        phone = none;
      }
      ∷ [];
  streams =
      record {
        id = 30;
        seller_id = 20;
        is_live = true;
        started_at = some 500;
        ended_at = none;
        session_ended_at = none;
        created_at = 400;
        product_ids = 40 ∷ 41 ∷ [];
      }
      ∷ [];
  products = sized_product ∷ plain_product ∷ [];
  orders = orders;
  buyer_ratings = [];
  seller_ratings = [];
  rating_logs = [];
  live_days = [];
  replacements = [];
  failures = [];
  refunds = [];
  carts = cart_entry ∷ [];
  holders = [];
  pendings = awaiting ∷ [];
  balances = [];
  shipments = [];
}
