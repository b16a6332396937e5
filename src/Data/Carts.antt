-- ===== src/Data/Carts.antt =====
-- What Redis holds: the carts, the index of their holders by stream, and payments under way.
use vybekart_backend.Shared.{ℕ, Option, List}
use vybekart_backend.Shared.Text.{Text}
use vybekart_backend.Data.People.{Uuid, Time}

pub record CartItem : Type 0 where
  pub product_id : Uuid
  pub quantity : ℕ
  pub size : Option Text
  pub color : Option Text
  pub variant_id : Option Text
  pub variant_label : Option Text

pub record CartState : Type 0 where
  pub items : List CartItem
  pub stream_id : Option Uuid
  pub stream_title : Option Text
  pub cart_expires_at : Option Time
  pub cart_updated_at : Option Time

-- The text under `orders:cart:…`, as `JSON.parse` reads it: an array, an object, or an error.
pub data StoredCart : Type 0 where
  legacy : List CartItem → StoredCart
  saved : CartState → StoredCart
  garbage : StoredCart

-- `expires` is the deadline that SETEX sets; from then on the key is gone.
pub record CartEntry : Type 0 where
  pub user_id : Uuid
  pub cart : StoredCart
  pub expires : Option Time

-- A member of the set `orders:stream-carts:…`.
pub record Holder : Type 0 where
  pub stream_id : Uuid
  pub user_id : Uuid

-- The JSON under `payments:razorpay:pending:…`.
pub record PendingPayment : Type 0 where
  pub razorpay_order_id : Uuid
  pub user_id : Uuid
  pub address_id : Option Uuid
  pub shipping_address : Text
  pub amount_paise : ℕ
  pub subtotal : ℕ
  pub delivery_fee : ℕ
  pub delivery_provider : Option Text
  pub stream_id : Uuid
  pub expires : Time

-- The JSON under `payments:razorpay:replacement:…`.
pub record PendingBalance : Type 0 where
  pub razorpay_order_id : Uuid
  pub user_id : Uuid
  pub replacement_id : Uuid
  pub amount_paise : ℕ
  pub expires : Time

pub data RefundStatus : Type 0 where
  refunded refund_failed : RefundStatus

-- A row of `PaymentCheckoutFailure`.
pub record CheckoutFailure : Type 0 where
  pub user_id : Uuid
  pub razorpay_order_id : Uuid
  pub razorpay_payment_id : Uuid
  pub amount_paise : ℕ
  pub refund_status : RefundStatus

-- A call of `razorpay.payments.refund`: the payment and the amount that is asked back.
pub record RefundCall : Type 0 where
  pub razorpay_payment_id : Uuid
  pub amount_paise : ℕ
