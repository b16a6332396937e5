-- ===== src/Ratings/Reward.antt =====
-- The days of live streaming and the waiver of the commission that they earn:
-- `recordStreamDuration`, `getLiveRewardStatus` and `refreshCommissionWaiver`.
pub mod Waiver
use vybekart_backend.Shared.{
  ℕ, ◌+◌, ◌-◌, ◌*◌, ◌/◌, Bool, true, false, ◌&&◌, Option, none, some, List, [], ◌∷◌, leb, ◌==◌,
  if◌then◌else◌,
}
use vybekart_backend.Shared.Lists.{length, filter, find, update_first}
use vybekart_backend.Shared.Action.{Action, internal, pure, gets, required, modify, ◌>>=◌, ◌>>◌}
use vybekart_backend.Data.{World, Uuid, Time, Seller}
use vybekart_backend.Data.Ratings.{LiveDay}
use vybekart_backend.Data.Table.{row, update}
use vybekart_backend.Ratings.Seller.{days}

-- QUALIFIED_DAY_SECONDS, REWARD_DAYS_REQUIRED and REWARD_WINDOW_DAYS
abbrev pub qualified_day_seconds : ℕ
qualified_day_seconds = 30 * 60

abbrev pub reward_days_required : ℕ
reward_days_required = 10

abbrev pub reward_window_days : ℕ
reward_window_days = 30

-- The day of a time in UTC, as the time at which it starts.
abbrev pub utc_date : Time → Time
utc_date t = days (t / 86400000)

-- `istDateOnly`: the day in India, five and a half hours ahead, as the time at which it starts in UTC
abbrev pub ist_date_only : Time → Time
ist_date_only t = utc_date (t + 19800000)

-- `where: { sellerId_date: { sellerId, date } }`
abbrev pub is_day : Uuid → Time → LiveDay → Bool
is_day s date d = d.seller_id == s && d.date == date

abbrev pub live_day : Uuid → Time → World → Option LiveDay
live_day s date w = find (is_day s date) w.live_days

abbrev pub seconds_of : Option LiveDay → ℕ
seconds_of none = 0
seconds_of (some d) = d.total_seconds

abbrev pub day_with : Uuid → Time → ℕ → LiveDay
day_with s date total = record {
  seller_id = s;
  date = date;
  total_seconds = total;
  qualified = leb qualified_day_seconds total;
}

-- The upsert of `recordStreamDuration`.
abbrev pub put_day : Uuid → Time → ℕ → Option LiveDay → Action World (Unit {0})
put_day s date total none =
    modify (λ w. record w { live_days = day_with s date total ∷ w.live_days })
put_day s date total (some d) = modify (λ w. record w {
  live_days =
      update_first (is_day s date)
        (λ d. record d { total_seconds = total; qualified = leb qualified_day_seconds total })
        w.live_days;
})

-- A qualified day of the seller in the window that ends now. The column `date` holds a date
-- (`@db.Date`), so the start of the window is compared by its date too, and its day is in the window.
abbrev pub in_window : Uuid → Time → LiveDay → Bool
in_window s now d =
    d.seller_id == s && d.qualified && leb (utc_date (now - days reward_window_days)) d.date

unfoldable pub qualified_days : Uuid → World → ℕ
qualified_days s w = length (filter (in_window s w.now) w.live_days)

pub record RewardStatus : Type 0 where
  pub minutes_today : ℕ
  pub qualified_days_in_window : ℕ
  pub reward_active : Bool
  pub commission_waiver_active : Bool

abbrev pub seller_by_id : Uuid → World → Option Seller
seller_by_id s w = row (λ x. x.id) s w.sellers

abbrev pub waiver_of : Option Seller → Bool
waiver_of none = false
waiver_of (some s) = s.commission_waiver_active

-- `getLiveRewardStatus`, less the constants that it sends along
unfoldable pub get_live_reward_status : Uuid → World → RewardStatus
unfolding qualified_days
get_live_reward_status s w = record {
  minutes_today = seconds_of (live_day s (ist_date_only w.now) w) / 60;
  qualified_days_in_window = qualified_days s w;
  reward_active = leb reward_days_required (qualified_days s w);
  commission_waiver_active = waiver_of (seller_by_id s w);
}

abbrev pub set_waiver : Uuid → Bool → Action World (Unit {0})
set_waiver s b = modify (λ w. record w {
  sellers = update (λ x. x.id) s (λ x. record x { commission_waiver_active = b }) w.sellers;
})

-- `refreshCommissionWaiver`; the update throws if there is no such seller
unfoldable pub refresh_commission_waiver : Uuid → Action World RewardStatus
unfolding get_live_reward_status
refresh_commission_waiver s = do
  status ← gets (get_live_reward_status s)
  required (← gets (seller_by_id s)) internal
  set_waiver s status.reward_active
  pure status

unfoldable pub record_stream_duration : Uuid → ℕ → Action World RewardStatus
unfolding refresh_commission_waiver
record_stream_duration s seconds = do
  day ← gets (λ w. ist_date_only w.now)
  existing ← gets (live_day s day)
  put_day s day (seconds_of existing + seconds) existing
  refresh_commission_waiver s
