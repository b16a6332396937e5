-- ===== src/Ratings/Bounds.antt =====
-- The ratings stay between no star and five.
pub mod Handlers
pub mod Run
use vybekart_backend.Shared.{
  ℕ, ◌≤◌, ◌+◌, ◌-◌, ◌*◌, ◌≡◌, refl, Bool, true, false, not, Option, none, some, List, [], ◌∷◌, ◌++◌,
  arith, leb, if◌then◌else◌, Bool-cases, inl, inr, ◌==◌,
}
use vybekart_backend.Shared.Lists.{All, All-append}
use vybekart_backend.Shared.Int.{ℤ, pos, ◌≤ℤ◌}
use vybekart_backend.Shared.Text.{Text, codes}
use vybekart_backend.Shared.Action.{
  Action, Result, ok, err, bad_request, not_found, internal, gets, pure, required, modify, ◌>>=◌,
}
use vybekart_backend.Shared.Keeps.{
  Keeps, Keeps-bind, Keeps-if, Keeps-any, gets-Keeps, pure-Keeps, modify-Keeps, required-Keeps,
}
use vybekart_backend.Data.{World, Uuid, BuyerRating, SellerRating}
use vybekart_backend.Data.Ratings.{RatingOverride}
use vybekart_backend.Data.Table.{row, update, All-row}
use vybekart_backend.Orders.Lookup.{buyer_row}
use vybekart_backend.Ratings.Buyer.{
  default_rating, buyer_rating, insert_buyer_rating, buyer_rating_or_default, ensure_buyer_rating,
  update_rating, record_delivered_order, get_buyer_score, log_override, admin_patch_buyer_rating,
}
use vybekart_backend.Ratings.Seller.{
  default_seller_rating, seller_rating, insert_seller_rating, update_seller_rating,
  rating_or_default, ensure_seller_rating, RatingInput, overall_of, rated, delivered_order,
  seller_of_first, put_seller_rating, submit_seller_rating, SellerRatingPatch, log_field,
  patched_field, patched, admin_patch_seller_rating, buyer_requests, seller_requests, lower_buyer,
  lower_seller, on_replacement_requested,
}

-- A number from 0 to `m`. Five stars are 500 hundredths, and 1500 three-hundredths.
abbrev pub UpTo : ℕ → ℤ → Type 0
UpTo m n = (pos 0 ≤ℤ n) × (n ≤ℤ pos m)

pub record IsBuyerScore (r : BuyerRating) : Type 0 where
  pub score : UpTo 500 r.score

pub record IsSellerScore (r : SellerRating) : Type 0 where
  pub overall : UpTo 1500 r.overall
  pub quality : UpTo 1500 r.quality
  pub originality : UpTo 1500 r.originality
  pub value_for_money : UpTo 1500 r.value_for_money

pub record WithinStars (w : World) : Type 0 where
  pub buyers : All IsBuyerScore w.buyer_ratings
  pub sellers : All IsSellerScore w.seller_ratings

-- What the validators of the requests, @Min(0) and @Max(5), let through.
pub record IsRating (d : RatingInput) : Type 0 where
  pub quality : UpTo 500 d.quality
  pub originality : UpTo 500 d.originality
  pub value_for_money : UpTo 500 d.value_for_money

abbrev pub IsGiven : ℕ → Option ℤ → Type 0
IsGiven m none = Unit
IsGiven m (some v) = UpTo m v

pub record IsPatch (d : SellerRatingPatch) : Type 0 where
  pub overall : IsGiven 500 d.overall
  pub quality : IsGiven 500 d.quality
  pub originality : IsGiven 500 d.originality
  pub value_for_money : IsGiven 500 d.value_for_money

abbrev pub Within : {A : Type 0} → (A → Type 0) → Action World A → Type 0
Within P m = Keeps WithinStars P m

-- A change that keeps the bounds of every row keeps those of the updated table.
All-changed :
    {R : Type 0} (P : R → Type 0) (key : R → ℕ) (k : ℕ) (f : R → R) (xs : List R)
    → ((x : R) → P x → P (f x))
    → All P xs
    → All P (update key k f xs)
unfolding update
All-changed P key k f [] h a = a
All-changed P key k f (x ∷ xs) h (p, ps) = elim (Bool-cases (key x == k)) [
  | inl here ↦ rw here (h x p, ps)
  | inr other ↦ rw other (p, All-changed P key k f xs h ps)
]

pub update_rating-Keeps :
    (b : Uuid) (f : BuyerRating → BuyerRating)
    → ((r : BuyerRating) → IsBuyerScore r → IsBuyerScore (f r))
    → Within (λ _. Unit) (update_rating b f)
update_rating-Keeps b f h =
    modify-Keeps (λ w. record w { buyer_ratings = update (λ r. r.buyer_id) b f w.buyer_ratings })
      λ w i. record {
        buyers =
            All-changed IsBuyerScore (λ (r : BuyerRating). r.buyer_id) b f w.buyer_ratings h
              i.buyers;
        sellers = i.sellers;
      }

pub update_seller_rating-Keeps :
    (s : Uuid) (f : SellerRating → SellerRating)
    → ((r : SellerRating) → IsSellerScore r → IsSellerScore (f r))
    → Within (λ _. Unit) (update_seller_rating s f)
update_seller_rating-Keeps s f h =
    modify-Keeps (λ w. record w { seller_ratings = update (λ r. r.seller_id) s f w.seller_ratings })
      λ w i. record {
        buyers = i.buyers;
        sellers =
            All-changed IsSellerScore (λ (r : SellerRating). r.seller_id) s f w.seller_ratings h
              i.sellers;
      }

pub insert_seller_rating-Keeps :
    (r : SellerRating) → IsSellerScore r → Within (λ _. Unit) (insert_seller_rating r)
insert_seller_rating-Keeps r h =
    modify-Keeps (λ w. record w { seller_ratings = w.seller_ratings ++ (r ∷ []) })
      λ w i. record {
        buyers = i.buyers;
        sellers = All-append IsSellerScore w.seller_ratings (r ∷ []) i.sellers (h, tt);
      }

-- A row that is read, if there is one.
abbrev pub IfSome : {A : Type 0} → (A → Type 0) → Option A → Type 0
IfSome P none = Unit
IfSome P (some a) = P a

read-IfSome :
    {R : Type 0} (P : R → Type 0) (key : R → ℕ) (k : ℕ) (xs : List R)
    → All P xs
    → IfSome P (row key k xs)
read-IfSome {R} P key k xs a = by_row (row key k xs) refl
  where
    by_row : (o : Option R) → row key k xs ≡ o → IfSome P o
    by_row none e = tt
    by_row (some x) e = All-row P key k xs x a e

pub buyer_rating-Keeps : (b : Uuid) → Within (IfSome IsBuyerScore) (gets (buyer_rating b))
buyer_rating-Keeps b =
    gets-Keeps (IfSome IsBuyerScore) (buyer_rating b)
      λ w i. read-IfSome IsBuyerScore (λ (r : BuyerRating). r.buyer_id) b w.buyer_ratings i.buyers

pub seller_rating-Keeps : (s : Uuid) → Within (IfSome IsSellerScore) (gets (seller_rating s))
seller_rating-Keeps s = gets-Keeps (IfSome IsSellerScore) (seller_rating s) λ w i.
    read-IfSome IsSellerScore (λ (r : SellerRating). r.seller_id) s w.seller_ratings i.sellers

default_rating-IsBuyerScore : (b : Uuid) → IsBuyerScore (default_rating b)
default_rating-IsBuyerScore b = record { score = (omega arith, omega arith) }

pub default-IsSellerScore : (s : Uuid) → IsSellerScore (default_seller_rating s)
default-IsSellerScore s = record {
  overall = (omega arith, omega arith);
  quality = (omega arith, omega arith);
  originality = (omega arith, omega arith);
  value_for_money = (omega arith, omega arith);
}

buyer_or_default-Keeps :
    (b : Uuid) (o : Option BuyerRating)
    → IfSome IsBuyerScore o
    → Within IsBuyerScore (buyer_rating_or_default b o)
buyer_or_default-Keeps b (some r) h = pure-Keeps IsBuyerScore r h
buyer_or_default-Keeps b none h =
    Keeps-bind
      (modify-Keeps (λ w. record w { buyer_ratings = w.buyer_ratings ++ (default_rating b ∷ []) })
        λ w i. record {
          buyers =
              All-append IsBuyerScore w.buyer_ratings (default_rating b ∷ []) i.buyers
                (default_rating-IsBuyerScore b, tt);
          sellers = i.sellers;
        })
      λ _ _. pure-Keeps IsBuyerScore (default_rating b) (default_rating-IsBuyerScore b)

pub ensure_buyer_rating-Keeps : (b : Uuid) → Within IsBuyerScore (ensure_buyer_rating b)
unfolding ensure_buyer_rating
ensure_buyer_rating-Keeps b = Keeps-bind (buyer_rating-Keeps b) λ o h. buyer_or_default-Keeps b o h

seller_or_default-Keeps :
    (s : Uuid) (o : Option SellerRating)
    → IfSome IsSellerScore o
    → Within IsSellerScore (rating_or_default s o)
seller_or_default-Keeps s (some r) h = pure-Keeps IsSellerScore r h
seller_or_default-Keeps s none h =
    Keeps-bind (insert_seller_rating-Keeps (default_seller_rating s) (default-IsSellerScore s))
      λ _ _. pure-Keeps IsSellerScore (default_seller_rating s) (default-IsSellerScore s)

pub ensure_seller_rating-Keeps : (s : Uuid) → Within IsSellerScore (ensure_seller_rating s)
unfolding ensure_seller_rating
ensure_seller_rating-Keeps s =
    Keeps-bind (seller_rating-Keeps s) λ o h. seller_or_default-Keeps s o h
