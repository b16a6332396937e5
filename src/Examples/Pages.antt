-- ===== src/Examples/Pages.antt =====
-- What the pages show, ratings, and a day of streaming.
use vybekart_backend.Shared.{◌≡◌, refl, true, false, none, List, [], ◌∷◌, ◌⊎◌, arith}
use vybekart_backend.Shared.Int.{pos}
use vybekart_backend.Data.{World}
use vybekart_backend.Replacements.Status.{covered}
use vybekart_backend.Ratings.Seller.{RatingInput}
use vybekart_backend.Ratings.Bounds.{WithinStars}
use vybekart_backend.Ratings.Bounds.Run.{
  Rating, submits, requests, patches_buyer, rate_all, rate_all-WithinStars,
}
use vybekart_backend.Timelines.{mark_first, mark_index, mark_first-mark_index}
use vybekart_backend.Timelines.Orders.{seller_timeline, buyer_timeline}
use vybekart_backend.Timelines.Replacements.{replacement_stages, replacement_timeline}
use vybekart_backend.Timelines.Shape.{ReadsOn}
use vybekart_backend.Timelines.Pages.{
  IsRegular, is_withdrawn, ReadsAsWithdrawn, order_timelines-ReadsOn, replacement_timeline-ReadsOn,
}
use vybekart_backend.Examples.Replacements.{arrived_order, packed_request, first_day}

replacement_timeline-ReadsOn_example : ReadsOn (replacement_timeline packed_request)
replacement_timeline-ReadsOn_example =
    replacement_timeline-ReadsOn packed_request (covered refl, refl, refl, refl) refl

arrived-IsRegular : IsRegular arrived_order
arrived-IsRegular = record { here = λ h. cc; video = λ h. cc; parcel = λ h. refl }

order_timelines-ReadsOn_example :
    ReadsOn (buyer_timeline 800 arrived_order)
    × ((is_withdrawn arrived_order ≡ false) × ReadsOn (seller_timeline 800 arrived_order)
        ⊎ (is_withdrawn arrived_order ≡ true)
          × ReadsAsWithdrawn (seller_timeline 800 arrived_order))
order_timelines-ReadsOn_example = order_timelines-ReadsOn 800 arrived_order arrived-IsRegular

mark_first-mark_index_example :
    mark_first false (replacement_stages packed_request)
    ≡ mark_index (replacement_stages packed_request)
mark_first-mark_index_example = mark_first-mark_index (replacement_stages packed_request)

-- Three requests of one buyer, and a rating for the seller.
abbrev five_stars : RatingInput
five_stars = record {
  order_id = 100;
  quality = pos 500;
  originality = pos 500;
  value_for_money = pos 450;
}

abbrev busy : List Rating
busy =
    Rating.delivers 10
    ∷ submits 1 five_stars
    ∷ requests 10 20
    ∷ patches_buyer 10 3 (pos 400) none
    ∷ []

rate_all-WithinStars_example : WithinStars (rate_all busy first_day)
rate_all-WithinStars_example =
    rate_all-WithinStars busy first_day
      (
        tt,
        (
          record {
            quality = (omega arith, omega arith);
            originality = (omega arith, omega arith);
            value_for_money = (omega arith, omega arith);
          },
          (tt, ((omega arith, omega arith), tt)),
        ),
      )
      (record { buyers = tt; sellers = tt })

-- The seller has streamed for twenty minutes today, and then for half an hour.
abbrev short_day : World
short_day = record first_day {
  live_days = record { seller_id = 20; date = 0; total_seconds = 1200; qualified = false } ∷ [];
}
