-- ===== src/Ratings/Bounds/Run.antt =====
-- Histories of requests to the service.
use vybekart_backend.Shared.{Option, List, [], ◌∷◌}
use vybekart_backend.Shared.Lists.{All}
use vybekart_backend.Shared.Int.{ℤ}
use vybekart_backend.Shared.Text.{Text}
use vybekart_backend.Data.{World, Uuid}
use vybekart_backend.Ratings.Buyer.{
  ensure_buyer_rating, record_delivered_order, get_buyer_score, admin_patch_buyer_rating,
}
use vybekart_backend.Ratings.Seller.{
  ensure_seller_rating, RatingInput, submit_seller_rating, SellerRatingPatch,
  admin_patch_seller_rating, on_replacement_requested,
}
use vybekart_backend.Ratings.Bounds.{
  UpTo, WithinStars, IsRating, IsPatch, ensure_buyer_rating-Keeps, ensure_seller_rating-Keeps,
}
use vybekart_backend.Ratings.Bounds.Handlers.{
  record_delivered_order-Keeps, get_buyer_score-Keeps, admin_patch_buyer_rating-Keeps,
  on_replacement_requested-Keeps, submit_seller_rating-Keeps, admin_patch_seller_rating-Keeps,
}

-- A call of the service that writes ratings.
pub data Rating : Type 0 where
  ensures_buyer ensures_seller delivers scores : Uuid → Rating
  requests : Uuid → Uuid → Rating
  patches_buyer : Uuid → Uuid → ℤ → Option Text → Rating
  patches_seller : Uuid → Uuid → SellerRatingPatch → Rating
  submits : Uuid → RatingInput → Rating

-- What the validators let through: numbers from no star to five.
abbrev pub IsValid : Rating → Type 0
IsValid (patches_buyer b admin n reason) = UpTo 500 n
IsValid (patches_seller s admin d) = IsPatch d
IsValid (submits u d) = IsRating d
IsValid _ = Unit

-- The state after a call, whether it returns or throws.
unfoldable pub rate : Rating → World → World
rate (ensures_buyer b) w = (ensure_buyer_rating b w).1
rate (ensures_seller s) w = (ensure_seller_rating s w).1
rate (delivers b) w = (record_delivered_order b w).1
rate (scores b) w = (get_buyer_score b w).1
rate (requests b s) w = (on_replacement_requested b s w).1
rate (patches_buyer b admin n reason) w = (admin_patch_buyer_rating b admin n reason w).1
rate (patches_seller s admin d) w = (admin_patch_seller_rating s admin d w).1
rate (submits u d) w = (submit_seller_rating u d w).1

rate-WithinStars : (e : Rating) (w : World) → IsValid e → WithinStars w → WithinStars (rate e w)
unfolding rate
rate-WithinStars (ensures_buyer b) w h i = (ensure_buyer_rating-Keeps b).kept w i
rate-WithinStars (ensures_seller s) w h i = (ensure_seller_rating-Keeps s).kept w i
rate-WithinStars (delivers b) w h i = (record_delivered_order-Keeps b).kept w i
rate-WithinStars (scores b) w h i = (get_buyer_score-Keeps b).kept w i
rate-WithinStars (requests b s) w h i = (on_replacement_requested-Keeps b s).kept w i
rate-WithinStars (patches_buyer b admin n reason) w h i =
    (admin_patch_buyer_rating-Keeps b admin n reason h).kept w i
rate-WithinStars (patches_seller s admin d) w h i =
    (admin_patch_seller_rating-Keeps s admin d h).kept w i
rate-WithinStars (submits u d) w h i = (submit_seller_rating-Keeps u d h).kept w i

abbrev pub rate_all : List Rating → World → World
rate_all [] w = w
rate_all (e ∷ es) w = rate_all es (rate e w)

-- If every rating in the tables is at least no star and at most five, then so it is after any calls
-- of the service whose numbers are at least no star and at most five: deliveries, replacement requests
-- and the penalties that they bring, ratings by buyers, and corrections by an admin, whichever of them
-- throw.
pub rate_all-WithinStars :
    (es : List Rating) (w : World) → All IsValid es → WithinStars w → WithinStars (rate_all es w)
rate_all-WithinStars [] w h i = i
rate_all-WithinStars (e ∷ es) w (h, hs) i =
    rate_all-WithinStars es (rate e w) hs (rate-WithinStars e w h i)
