-- ===== src/Data/Ratings.antt =====
-- What is kept beside the ratings: the log of overrides and the days of live streaming.
use vybekart_backend.Shared.{ℕ, Bool, Option}
use vybekart_backend.Shared.Int.{ℤ}
use vybekart_backend.Shared.Text.{Text}
use vybekart_backend.Data.People.{Uuid, Time}

pub data RatingEntityType : Type 0 where
  buyer seller : RatingEntityType

-- A row of `RatingOverrideLog`.
pub record RatingOverride : Type 0 where
  pub admin_user_id : Uuid
  pub entity_type : RatingEntityType
  pub entity_id : Uuid
  pub changed_field : Text
  pub old_value : ℤ
  pub new_value : ℤ
  pub reason : Option Text

-- A row of `SellerLiveQualificationDay`; `date` is the start of a day.
pub record LiveDay : Type 0 where
  pub seller_id : Uuid
  pub date : Time
  pub total_seconds : ℕ
  pub qualified : Bool
