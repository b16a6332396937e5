-- ===== src/Data/Replacements.antt =====
-- Replacement requests.
use vybekart_backend.Shared.{ℕ, Bool, Option, List}
use vybekart_backend.Shared.Text.{Text}
use vybekart_backend.Data.People.{Uuid, Time}

pub data ReplacementStatus : Type 0 where
  requested pending_admin_review awaiting_payment approved rejected packed shipped delivered :
      ReplacementStatus

pub data BalanceStatus : Type 0 where
  no_balance balance_pending balance_paid : BalanceStatus

pub record Replacement : Type 0 where
  pub id : Uuid
  pub order_id : Uuid
  pub buyer_id : Uuid
  pub seller_id : Uuid
  pub order_item_id : Uuid
  pub reason : Text
  pub description : Option Text
  pub photo_urls : List Text
  pub admin_note : Option Text
  pub status : ReplacementStatus
  pub auto_approved : Bool
  pub decided_at : Option Time
  pub decided_by : Option Uuid
  pub replacement_variant_id : Option Text
  pub replacement_variant_label : Option Text
  pub original_unit_price : ℕ
  pub replacement_unit_price : ℕ
  pub balance_due : ℕ
  pub balance_payment_status : BalanceStatus
  pub razorpay_order_id : Option Uuid
  pub razorpay_payment_id : Option Uuid
  pub packing_video_url : Option Text
  pub packed_at : Option Time
  pub shipped_at : Option Time
  pub delivered_at : Option Time
  pub tracking_id : Option Text
  pub tracking_url : Option Text
  pub carrier_name : Option Text
  pub delivery_provider : Option Text
  pub delivery_status : Option Text
  pub created_at : Time
