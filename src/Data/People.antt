-- ===== src/Data/People.antt =====
-- Users, their profiles, streams and products.
use vybekart_backend.Shared.{ℕ, Bool, Option, List}
use vybekart_backend.Shared.Int.{ℤ}
use vybekart_backend.Shared.Text.{Text}
use vybekart_backend.Json.{Value}

abbrev pub Uuid : Type 0
Uuid = ℕ

-- A time in milliseconds.
abbrev pub Time : Type 0
Time = ℕ

pub record User : Type 0 where
  pub id : Uuid
  pub name : Text
  pub phone : Option Text

pub record Buyer : Type 0 where
  pub id : Uuid
  pub user_id : Uuid

pub record Seller : Type 0 where
  pub id : Uuid
  pub user_id : Uuid
  pub business_name : Text
  pub commission_waiver_active : Bool

pub data AddressType : Type 0 where
  shipping billing pickup : AddressType

-- The rows of the table stand with the newest first.
pub record Address : Type 0 where
  pub id : Uuid
  pub user_id : Uuid
  pub type : AddressType
  pub formatted : Text
  pub zip : Option Text
  pub phone : Option Text

pub record Stream : Type 0 where
  pub id : Uuid
  pub seller_id : Uuid
  pub is_live : Bool
  pub started_at : Option Time
  pub ended_at : Option Time
  pub session_ended_at : Option Time
  pub created_at : Time
  pub product_ids : List Uuid

pub record Product : Type 0 where
  pub id : Uuid
  pub seller_id : Uuid
  pub price : ℕ
  pub stock : ℤ
  pub variants : Value
  pub returnable : Option Bool

-- `score` is in hundredths of a star.
pub record BuyerRating : Type 0 where
  pub buyer_id : Uuid
  pub score : ℤ
  pub replacement_count : ℕ
  pub delivered_count : ℕ

-- The stars are in three-hundredths, in which a mean of three hundredths is exact.
pub record SellerRating : Type 0 where
  pub seller_id : Uuid
  pub overall : ℤ
  pub quality : ℤ
  pub originality : ℤ
  pub value_for_money : ℤ
