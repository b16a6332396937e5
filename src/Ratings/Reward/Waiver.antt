-- ===== src/Ratings/Reward/Waiver.antt =====
-- The waiver after a stream has ended.
use vybekart_backend.Shared.{ℕ, ◌-◌, ◌*◌, ◌/◌, ◌≡◌, Bool, List, ◌==◌, ◌&&◌, leb}
use vybekart_backend.Shared.Lists.{All, length, filter}
use vybekart_backend.Data.{World, Uuid, Time, Seller}
use vybekart_backend.Data.Ratings.{LiveDay}
use vybekart_backend.Ratings.Reward.{reward_days_required, qualified_days, seller_by_id, waiver_of}

-- The waiver says whether the window has days enough.
abbrev IsUpToDate : Uuid → World → Type 0
IsUpToDate s t = waiver_of (seller_by_id s t) ≡ leb reward_days_required (qualified_days s t)

-- The flag of every day says whether its seconds are at least half an hour.
abbrev pub AreFlagged : List LiveDay → Type 0
AreFlagged = All (λ d. d.qualified ≡ leb 1800 d.total_seconds)

-- A day from `since` on, on which the seller streamed for half an hour.
abbrev pub has_streamed : Uuid → Time → LiveDay → Bool
has_streamed s since d = d.seller_id == s && leb 1800 d.total_seconds && leb since d.date

-- The days on which the seller has streamed for half an hour, from the day, in UTC, of thirty days
-- ago.
abbrev pub days_streamed : Uuid → World → ℕ
days_streamed s w =
    length (filter (has_streamed s ((w.now - 2592000000) / 86400000 * 86400000)) w.live_days)

waived : Bool → Seller → Seller
waived b x = record x { commission_waiver_active = b }
