-- ===== src/Data/Orders.antt =====
-- Orders and their lines.
use vybekart_backend.Shared.{ℕ, Option, List}
use vybekart_backend.Shared.Text.{Text}
use vybekart_backend.Data.People.{Uuid, Time}

pub data OrderStatus : Type 0 where
  pending paid packed shipped delivered cancelled returned : OrderStatus

pub record OrderItem : Type 0 where
  pub id : Uuid
  pub product_id : Uuid
  pub quantity : ℕ
  pub price : ℕ
  pub variant_id : Option Text
  pub variant_label : Option Text

pub record Order : Type 0 where
  pub id : Uuid
  pub buyer_id : Option Uuid
  pub stream_id : Option Uuid
  pub shipping_address : Option Text
  pub status : OrderStatus
  pub total_amount : ℕ
  pub delivery_fee : ℕ
  pub delivery_provider : Option Text
  pub tracking_id : Option Text
  pub tracking_url : Option Text
  pub carrier_name : Option Text
  pub delivery_status : Option Text
  pub partner_status : Option Text
  pub packing_video_url : Option Text
  pub packed_at : Option Time
  pub shipped_at : Option Time
  pub delivered_at : Option Time
  pub razorpay_order_id : Option Uuid
  pub razorpay_payment_id : Option Uuid
  pub items : List OrderItem

-- A row of the in-memory map of `MockDeliveryService`.
pub record MockShipment : Type 0 where
  pub order_id : Uuid
  pub created_at : Time
  pub last_poll : Time
  pub phase : ℕ
