-- ===== src/Ratings/Bounds/Handlers.antt =====
-- Every operation of the service keeps the ratings between no star and five.
use vybekart_backend.Shared.{
  ℕ, ◌+◌, ◌*◌, ◌≡◌, Bool-cases, inl, inr, Option, none, some, ◌∷◌, arith, leb,
}
use vybekart_backend.Shared.Int.{ℤ, pos, negsuc, ◌+ℤ◌, ◌-ℤ◌, ltb_ℤ, int_laws}
use vybekart_backend.Shared.Text.{Text, codes}
use vybekart_backend.Shared.Action.{
  bad_request, not_found, internal, gets, required, ◌>>=◌, Exception,
}
use vybekart_backend.Shared.Keeps.{
  Keeps-bind, Keeps-if, gets-Keeps, pure-Keeps, modify-Keeps, required-Keeps,
}
use vybekart_backend.Data.{World, Uuid, SellerRating}
use vybekart_backend.Data.Ratings.{RatingOverride}
use vybekart_backend.Orders.Lookup.{buyer_row}
use vybekart_backend.Ratings.Buyer.{
  buyer_rating, score_log, record_delivered_order, get_buyer_score, log_override,
  admin_patch_buyer_rating,
}
use vybekart_backend.Ratings.Seller.{
  default_seller_rating, seller_rating, RatingInput, rated, delivered_order, seller_of_first,
  put_seller_rating, submit_seller_rating, SellerRatingPatch, log_field, patched_field, patched,
  admin_patch_seller_rating, buyer_requests, seller_requests, thrice, third, max_zero, lower_buyer,
  lower_seller, on_replacement_requested,
}
use vybekart_backend.Ratings.Bounds.{
  IsBuyerScore, IsSellerScore, IsRating, UpTo, IsGiven, IsPatch, Within, IfSome,
  update_rating-Keeps, update_seller_rating-Keeps, insert_seller_rating-Keeps, buyer_rating-Keeps,
  seller_rating-Keeps, ensure_buyer_rating-Keeps, ensure_seller_rating-Keeps,
}

-- The arithmetic of the service, within bounds.
lowered : (n : ℤ) (m d : ℕ) → UpTo m n → UpTo m (max_zero (n -ℤ pos d))
lowered n m d (low, high) = elim (Bool-cases (ltb_ℤ (n -ℤ pos d) (pos 0))) [
  | inl below ↦ rw below (omega arith, omega arith)
  | inr above ↦ rw above (ground arith, omega (int_laws, low, high))
]

tripled : (n : ℤ) (m : ℕ) → UpTo m n → UpTo (3 * m) (thrice n)
tripled n m (low, high) = (omega (int_laws, low, high), omega (int_laws, low, high))

added : (a b : ℤ) (m n : ℕ) → UpTo m a → UpTo n b → UpTo (m + n) (a +ℤ b)
added a b m n (low, high) (low', high') =
    (omega (int_laws, low, low'), omega (int_laws, high, high'))

divided : (a : ℤ) (m : ℕ) → UpTo (3 * m) a → UpTo m (third a)
divided (pos n) m (low, high) = (omega arith, omega (arith, high))
divided (negsuc n) m (low, high) = ground arith

-- A value that is read and of which nothing is known.
read-Keeps : {A : Type 0} (f : World → A) → Within (λ _. Unit) (gets f)
read-Keeps f = gets-Keeps (λ _. Unit) f λ w i. tt

need-Keeps : {A : Type 0} (o : Option A) (e : Exception) → Within (λ _. Unit) (required o e)
need-Keeps o e = required-Keeps (λ _. Unit) o e λ a h. tt

log_override-Keeps : (l : RatingOverride) → Within (λ _. Unit) (log_override l)
log_override-Keeps l =
    modify-Keeps (λ w. record w { rating_logs = l ∷ w.rating_logs })
      λ w i. record { buyers = i.buyers; sellers = i.sellers }

IfSome-of : {A : Type 0} (P : A → Type 0) (o : Option A) (a : A) → IfSome P o → o ≡ some a → P a
IfSome-of P none a h e = cc
IfSome-of P (some b) a h e = let same : b ≡ a = cc in rw same at h

-- The row that a handler sends back.
returned_buyer-Keeps :
    (b : Uuid) → Within IsBuyerScore (gets (buyer_rating b) >>= λ o. required o internal)
returned_buyer-Keeps b =
    Keeps-bind (buyer_rating-Keeps b)
      λ o h. required-Keeps IsBuyerScore o internal (λ a e. IfSome-of IsBuyerScore o a h e)

returned_seller-Keeps :
    (s : Uuid) → Within IsSellerScore (gets (seller_rating s) >>= λ o. required o internal)
returned_seller-Keeps s =
    Keeps-bind (seller_rating-Keeps s)
      λ o h. required-Keeps IsSellerScore o internal (λ a e. IfSome-of IsSellerScore o a h e)

pub record_delivered_order-Keeps : (b : Uuid) → Within (λ _. Unit) (record_delivered_order b)
unfolding record_delivered_order
record_delivered_order-Keeps b = Keeps-bind (ensure_buyer_rating-Keeps b) λ _ _.
    update_rating-Keeps b (λ r. record r { delivered_count = r.delivered_count + 1 })
      λ r h. record { score = h.score }

pub get_buyer_score-Keeps : (b : Uuid) → Within (UpTo 500) (get_buyer_score b)
unfolding get_buyer_score
get_buyer_score-Keeps b =
    Keeps-bind (ensure_buyer_rating-Keeps b) λ r h. pure-Keeps (UpTo 500) r.score h.score

pub admin_patch_buyer_rating-Keeps :
    (b admin : Uuid) (n : ℤ) (reason : Option Text)
    → UpTo 500 n
    → Within IsBuyerScore (admin_patch_buyer_rating b admin n reason)
unfolding admin_patch_buyer_rating
admin_patch_buyer_rating-Keeps b admin n reason h =
    Keeps-bind (ensure_buyer_rating-Keeps b) λ existing _.
      Keeps-bind (log_override-Keeps (score_log b admin existing.score n reason)) λ _ _.
        Keeps-bind (update_rating-Keeps b (λ r. record r { score = n }) λ r _. record { score = h })
          λ _ _. returned_buyer-Keeps b

lower_buyer-Keeps :
    (b : Uuid) (score : ℤ) (n : ℕ) → UpTo 500 score → Within (λ _. Unit) (lower_buyer b score n)
lower_buyer-Keeps b score n h =
    Keeps-if (leb 3 n)
      (update_rating-Keeps b (λ r. record r { score = max_zero (score -ℤ pos 200) })
        λ r _. record { score = lowered score 500 200 h })
      (pure-Keeps (λ _. Unit) tt tt)

lower_seller-Keeps : (s : Uuid) (n : ℕ) → Within (λ _. Unit) (lower_seller s n)
unfolding lower_seller
lower_seller-Keeps s n =
    Keeps-if (leb 5 n)
      (Keeps-bind (ensure_seller_rating-Keeps s) λ r h.
        update_seller_rating-Keeps s (λ q. record q { overall = max_zero (r.overall -ℤ pos 600) })
          λ q k. record {
            overall = lowered r.overall 1500 600 h.overall;
            quality = k.quality;
            originality = k.originality;
            value_for_money = k.value_for_money;
          })
      (pure-Keeps (λ _. Unit) tt tt)

pub on_replacement_requested-Keeps :
    (b s : Uuid) → Within (λ _. Unit) (on_replacement_requested b s)
unfolding on_replacement_requested
on_replacement_requested-Keeps b s = Keeps-bind (ensure_buyer_rating-Keeps b) λ rating h.
    Keeps-bind
      (update_rating-Keeps b (λ r. record r { replacement_count = r.replacement_count + 1 })
        λ r k. record { score = k.score })
      λ _ _. Keeps-bind (read-Keeps (buyer_requests b 90)) λ n _.
        Keeps-bind (lower_buyer-Keeps b rating.score n h.score)
          λ _ _. Keeps-bind (read-Keeps (seller_requests s 30)) λ m _. lower_seller-Keeps s m

rated-IsSellerScore : (d : RatingInput) (r : SellerRating) → IsRating d → IsSellerScore (rated d r)
rated-IsSellerScore d r h =
    let a = tripled d.quality 500 h.quality in
    let b = tripled d.originality 500 h.originality in
    let c = tripled d.value_for_money 500 h.value_for_money in
    record {
      overall = divided _ 1500 (added _ _ 3000 1500 (added _ _ 1500 1500 a b) c);
      quality = a;
      originality = b;
      value_for_money = c;
    }

put_seller_rating-Keeps :
    (s : Uuid) (d : RatingInput) (o : Option SellerRating)
    → IsRating d
    → Within (λ _. Unit) (put_seller_rating s d o)
put_seller_rating-Keeps s d none h =
    insert_seller_rating-Keeps (rated d (default_seller_rating s))
      (rated-IsSellerScore d (default_seller_rating s) h)
put_seller_rating-Keeps s d (some r) h =
    update_seller_rating-Keeps s (rated d) λ q _. rated-IsSellerScore d q h

pub submit_seller_rating-Keeps :
    (u : Uuid) (d : RatingInput) → IsRating d → Within IsSellerScore (submit_seller_rating u d)
unfolding submit_seller_rating
submit_seller_rating-Keeps u d h = Keeps-bind (read-Keeps (buyer_row u)) λ found_b _.
    Keeps-bind (need-Keeps found_b (not_found "Buyer profile not found")) λ b _.
      Keeps-bind (read-Keeps (delivered_order d.order_id b.id)) λ found_o _.
        Keeps-bind (need-Keeps found_o (bad_request "Delivered order not found")) λ o _.
          Keeps-bind (read-Keeps (λ w. seller_of_first w o.items)) λ found_s _.
            Keeps-bind (need-Keeps found_s (bad_request "Seller not found for order")) λ s _.
              Keeps-bind (seller_rating-Keeps s) λ existing _.
                Keeps-bind (put_seller_rating-Keeps s d existing h) λ _ _. returned_seller-Keeps s

log_field-Keeps :
    (s admin : Uuid) (reason : Option Text) (name : Text) (old : ℤ) (v : Option ℤ)
    → Within (λ _. Unit) (log_field s admin reason name old v)
log_field-Keeps s admin reason name old none = pure-Keeps (λ _. Unit) tt tt
log_field-Keeps s admin reason name old (some v) = log_override-Keeps _

patched_field-UpTo :
    (old : ℤ) (v : Option ℤ) → UpTo 1500 old → IsGiven 500 v → UpTo 1500 (patched_field old v)
patched_field-UpTo old none h k = h
patched_field-UpTo old (some v) h k = tripled v 500 k

pub admin_patch_seller_rating-Keeps :
    (s admin : Uuid) (d : SellerRatingPatch)
    → IsPatch d
    → Within IsSellerScore (admin_patch_seller_rating s admin d)
unfolding admin_patch_seller_rating
admin_patch_seller_rating-Keeps s admin d h =
    Keeps-bind (ensure_seller_rating-Keeps s) λ existing _.
      Keeps-bind (log_field-Keeps s admin d.reason (codes "overall") existing.overall d.overall)
        λ _ _.
          Keeps-bind (log_field-Keeps s admin d.reason (codes "quality") existing.quality d.quality)
            λ _ _.
              Keeps-bind
                (log_field-Keeps s admin d.reason (codes "originality") existing.originality
                  d.originality)
                λ _ _.
                  Keeps-bind
                    (log_field-Keeps s admin d.reason (codes "valueForMoney")
                      existing.value_for_money d.value_for_money)
                    λ _ _.
                      Keeps-bind
                        (update_seller_rating-Keeps s (patched d) λ r k. record {
                          overall = patched_field-UpTo r.overall d.overall k.overall h.overall;
                          quality = patched_field-UpTo r.quality d.quality k.quality h.quality;
                          originality =
                              patched_field-UpTo r.originality d.originality k.originality
                                h.originality;
                          value_for_money =
                              patched_field-UpTo r.value_for_money d.value_for_money
                                k.value_for_money h.value_for_money;
                        })
                        λ _ _. returned_seller-Keeps s
