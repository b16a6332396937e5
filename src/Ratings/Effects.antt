-- ===== src/Ratings/Effects.antt =====
-- The parts of the state that the ratings leave alone.
use vybekart_backend.Shared.{◌≡◌, Option, none, some, List, leb, ℕ, ◌+◌}
use vybekart_backend.Shared.Int.{ℤ, pos, ◌-ℤ◌}
use vybekart_backend.Data.{World, Uuid, BuyerRating, SellerRating}
use vybekart_backend.Data.Writes.{
  StillOn, still, StillOn-bind, StillOn-if, gets-StillOn, pure-StillOn,
}
use vybekart_backend.Ratings.Buyer.{
  buyer_rating, buyer_rating_or_default, ensure_buyer_rating, update_rating, record_delivered_order,
  get_buyer_score,
}
use vybekart_backend.Ratings.Seller.{
  seller_rating, rating_or_default, ensure_seller_rating, update_seller_rating, buyer_requests,
  seller_requests, max_zero, lower_buyer, lower_seller, on_replacement_requested,
}

-- A part of the state in which the ratings of buyers do not stand.
module _ {T : Type 0} (table : World → T)
    (apart : (w : World) (rs : List BuyerRating)
      → table (record w { buyer_ratings = rs }) ≡ table w) where
  or_default-StillOn :
      (b : Uuid) (o : Option BuyerRating) → StillOn table (buyer_rating_or_default b o)
  or_default-StillOn b none = still λ t. apart t _
  or_default-StillOn b (some r) = pure-StillOn r

  update_rating-StillOn :
      (b : Uuid) (f : BuyerRating → BuyerRating) → StillOn table (update_rating b f)
  update_rating-StillOn b f = still λ t. apart t _

  pub ensure_buyer_rating-StillOn : (b : Uuid) → StillOn table (ensure_buyer_rating b)
  unfolding ensure_buyer_rating
  ensure_buyer_rating-StillOn b =
      StillOn-bind (gets-StillOn (buyer_rating b)) (or_default-StillOn b)

  pub record_delivered_order-StillOn : (b : Uuid) → StillOn table (record_delivered_order b)
  unfolding record_delivered_order
  record_delivered_order-StillOn b =
      StillOn-bind (ensure_buyer_rating-StillOn b) λ _. update_rating-StillOn b _

  pub get_buyer_score-StillOn : (b : Uuid) → StillOn table (get_buyer_score b)
  unfolding get_buyer_score
  get_buyer_score-StillOn b = StillOn-bind (ensure_buyer_rating-StillOn b) λ r. pure-StillOn r.score

  lower_buyer-StillOn : (b : Uuid) (n : ℤ) (m : ℕ) → StillOn table (lower_buyer b n m)
  lower_buyer-StillOn b n m =
      StillOn-if (leb 3 m)
        (update_rating-StillOn b (λ r. record r { score = max_zero (n -ℤ pos 200) }))
        (pure-StillOn tt)

  module _
      (apart_too : (w : World) (rs : List SellerRating)
        → table (record w { seller_ratings = rs }) ≡ table w) where
    seller_or_default-StillOn :
        (s : Uuid) (o : Option SellerRating) → StillOn table (rating_or_default s o)
    seller_or_default-StillOn s none = still λ t. apart_too t _
    seller_or_default-StillOn s (some r) = pure-StillOn r

    pub ensure_seller_rating-StillOn : (s : Uuid) → StillOn table (ensure_seller_rating s)
    unfolding ensure_seller_rating
    ensure_seller_rating-StillOn s =
        StillOn-bind (gets-StillOn (seller_rating s)) (seller_or_default-StillOn s)

    update_seller_rating-StillOn :
        (s : Uuid) (f : SellerRating → SellerRating) → StillOn table (update_seller_rating s f)
    update_seller_rating-StillOn s f = still λ t. apart_too t _

    lower_seller-StillOn : (s : Uuid) (m : ℕ) → StillOn table (lower_seller s m)
    unfolding lower_seller
    lower_seller-StillOn s m =
        StillOn-if (leb 5 m)
          (StillOn-bind (ensure_seller_rating-StillOn s) λ r.
            update_seller_rating-StillOn s
              (λ (q : SellerRating). record q { overall = max_zero (r.overall -ℤ pos 600) }))
          (pure-StillOn tt)

    pub on_replacement_requested-StillOn :
        (b s : Uuid) → StillOn table (on_replacement_requested b s)
    unfolding on_replacement_requested
    on_replacement_requested-StillOn b s = StillOn-bind (ensure_buyer_rating-StillOn b) λ rating.
        StillOn-bind
          (update_rating-StillOn b (λ r. record r { replacement_count = r.replacement_count + 1 }))
          λ _. StillOn-bind (gets-StillOn (buyer_requests b 90)) λ n.
            StillOn-bind (lower_buyer-StillOn b rating.score n)
              λ _. StillOn-bind (gets-StillOn (seller_requests s 30)) (lower_seller-StillOn s)
