-- ===== src/Ratings/Seller.antt =====
-- The ratings of sellers: `ensureSellerRating`, `getSellerReplacementPercent`, `submitSellerRating`,
-- `adminPatchSellerRating`, and `onReplacementRequested` for both sides.
use vybekart_backend.Shared.{
  ℕ, ◌+◌, ◌-◌, ◌*◌, ◌/◌, Bool, true, false, ◌&&◌, Option, none, some, List, [], ◌∷◌, ◌++◌, leb,
  ◌==◌, if◌then◌else◌,
}
use vybekart_backend.Shared.Lists.{length, filter, any}
use vybekart_backend.Shared.Int.{ℤ, pos, negsuc, ◌+ℤ◌, ◌-ℤ◌, ltb_ℤ}
use vybekart_backend.Shared.Text.{Text, codes}
use vybekart_backend.Shared.Action.{
  Action, bad_request, not_found, internal, pure, gets, required, modify, ◌>>=◌, ◌>>◌,
}
use vybekart_backend.Data.{World, Uuid, SellerRating}
use vybekart_backend.Data.Orders.{Order, OrderItem, delivered}
use vybekart_backend.Data.Replacements.{Replacement, ReplacementStatus}
use vybekart_backend.Data.Ratings.{seller}
use vybekart_backend.Data.Table.{row, update}
use vybekart_backend.Orders.Lookup.{order_row, product_row, buyer_row, sold_by, status_eq}
use vybekart_backend.Orders.Buyer.{is_owner}
use vybekart_backend.Ratings.Buyer.{ensure_buyer_rating, update_rating, log_override}

abbrev pub default_seller_rating : Uuid → SellerRating
default_seller_rating s = record {
  seller_id = s;
  overall = pos 1500;
  quality = pos 1500;
  originality = pos 1500;
  value_for_money = pos 1500;
}

abbrev pub seller_rating : Uuid → World → Option SellerRating
seller_rating s w = row (λ r. r.seller_id) s w.seller_ratings

-- `sellerRating.create`, `sellerRating.update`
abbrev pub insert_seller_rating : SellerRating → Action World (Unit {0})
insert_seller_rating r = modify (λ w. record w { seller_ratings = w.seller_ratings ++ (r ∷ []) })

abbrev pub update_seller_rating : Uuid → (SellerRating → SellerRating) → Action World (Unit {0})
update_seller_rating s f =
    modify (λ w. record w { seller_ratings = update (λ r. r.seller_id) s f w.seller_ratings })

abbrev pub rating_or_default : Uuid → Option SellerRating → Action World SellerRating
rating_or_default s (some r) = pure r
rating_or_default s none = do
  insert_seller_rating (default_seller_rating s)
  pure (default_seller_rating s)

unfoldable pub ensure_seller_rating : Uuid → Action World SellerRating
ensure_seller_rating s = do found ← gets (seller_rating s); rating_or_default s found

-- Orders that are delivered and have a product of the seller.
abbrev pub is_fulfilled_by : Uuid → World → Order → Bool
is_fulfilled_by s w o =
    status_eq o.status delivered && any (λ i. sold_by s (product_row i.product_id w)) o.items

abbrev pub counts_as_approved : ReplacementStatus → Bool
counts_as_approved ReplacementStatus.approved = true
counts_as_approved ReplacementStatus.shipped = true
counts_as_approved ReplacementStatus.delivered = true
counts_as_approved _ = false

abbrev pub is_approved_of : Uuid → Replacement → Bool
is_approved_of s r = r.seller_id == s && counts_as_approved r.status

-- `Math.round((approved / fulfilled) * 1000) / 10`, in tenths of a percent
abbrev pub percent_of : ℕ → ℕ → ℕ
percent_of approved fulfilled =
    if fulfilled == 0 then 0 else (2000 * approved + fulfilled) / (2 * fulfilled)

-- `getSellerReplacementPercent`
unfoldable pub replacement_percent : Uuid → World → ℕ
replacement_percent s w =
    percent_of (length (filter (is_approved_of s) w.replacements))
      (length (filter (is_fulfilled_by s w) w.orders))

-- `SubmitSellerRatingDto`, in hundredths of a star
pub record RatingInput : Type 0 where
  pub order_id : Uuid
  pub quality : ℤ
  pub originality : ℤ
  pub value_for_money : ℤ

-- From hundredths to three-hundredths, and a division by three.
abbrev pub thrice : ℤ → ℤ
thrice n = n +ℤ n +ℤ n

abbrev pub third : ℤ → ℤ
third (pos n) = pos (n / 3)
third (negsuc n) = negsuc (n / 3)

-- The average of the three, in three-hundredths
abbrev pub overall_of : RatingInput → ℤ
overall_of d = third (thrice d.quality +ℤ thrice d.originality +ℤ thrice d.value_for_money)

abbrev pub rated : RatingInput → SellerRating → SellerRating
rated d r = record r {
  overall = overall_of d;
  quality = thrice d.quality;
  originality = thrice d.originality;
  value_for_money = thrice d.value_for_money;
}

-- The order of a buyer that is delivered.
abbrev pub delivered_order : Uuid → Uuid → World → Option Order
delivered_order k b w = elim (order_row k w) [
  | none ↦ none
  | some o ↦ if is_owner o.buyer_id b && status_eq o.status delivered then some o else none
]

-- The seller of the first line.
abbrev pub seller_of_first : World → List OrderItem → Option Uuid
seller_of_first w [] = none
seller_of_first w (i ∷ is) = elim (product_row i.product_id w) [
  | none ↦ none
  | some p ↦ some p.seller_id
]

-- The upsert of `submitSellerRating`.
abbrev pub put_seller_rating : Uuid → RatingInput → Option SellerRating → Action World (Unit {0})
put_seller_rating s d none = insert_seller_rating (rated d (default_seller_rating s))
put_seller_rating s d (some r) = update_seller_rating s (rated d)

unfoldable pub submit_seller_rating : Uuid → RatingInput → Action World SellerRating
submit_seller_rating u d = do
  b ← required (← gets (buyer_row u)) (not_found "Buyer profile not found")
  o ← required (← gets (delivered_order d.order_id b.id)) (bad_request "Delivered order not found")
  s ← required (← gets (λ w. seller_of_first w o.items)) (bad_request "Seller not found for order")
  existing ← gets (seller_rating s)
  put_seller_rating s d existing
  found ← gets (seller_rating s)
  required found internal

-- `PatchSellerRatingDto`, in hundredths of a star
pub record SellerRatingPatch : Type 0 where
  pub overall : Option ℤ
  pub quality : Option ℤ
  pub originality : Option ℤ
  pub value_for_money : Option ℤ
  pub reason : Option Text

-- One field of the patch in the log, if it is given.
abbrev pub log_field : Uuid → Uuid → Option Text → Text → ℤ → Option ℤ → Action World (Unit {0})
log_field s admin reason name old none = pure tt
log_field s admin reason name old (some v) = log_override (record {
  admin_user_id = admin;
  entity_type = seller;
  entity_id = s;
  changed_field = name;
  old_value = old;
  new_value = thrice v;
  reason = reason;
})

abbrev pub patched_field : ℤ → Option ℤ → ℤ
patched_field old none = old
patched_field old (some v) = thrice v

abbrev pub patched : SellerRatingPatch → SellerRating → SellerRating
patched d r = record r {
  overall = patched_field r.overall d.overall;
  quality = patched_field r.quality d.quality;
  originality = patched_field r.originality d.originality;
  value_for_money = patched_field r.value_for_money d.value_for_money;
}

unfoldable pub admin_patch_seller_rating :
    Uuid → Uuid → SellerRatingPatch → Action World SellerRating
unfolding ensure_seller_rating
admin_patch_seller_rating s admin d = do
  existing ← ensure_seller_rating s
  log_field s admin d.reason (codes "overall") existing.overall d.overall
  log_field s admin d.reason (codes "quality") existing.quality d.quality
  log_field s admin d.reason (codes "originality") existing.originality d.originality
  log_field s admin d.reason (codes "valueForMoney") existing.value_for_money d.value_for_money
  update_seller_rating s (patched d)
  found ← gets (seller_rating s)
  required found internal

-- A number of days in milliseconds.
abbrev pub days : ℕ → ℕ
days n = n * 86400000

-- Requests since a number of days ago: of a buyer, and for a seller.
abbrev pub buyer_requests : Uuid → ℕ → World → ℕ
buyer_requests b n w =
    length (filter (λ r. r.buyer_id == b && leb (w.now - days n) r.created_at) w.replacements)

abbrev pub seller_requests : Uuid → ℕ → World → ℕ
seller_requests s n w =
    length (filter (λ r. r.seller_id == s && leb (w.now - days n) r.created_at) w.replacements)

-- `Math.max(0, n)`
abbrev pub max_zero : ℤ → ℤ
max_zero n = if ltb_ℤ n (pos 0) then pos 0 else n

-- The penalties: `score - 2` from the score that was read, in hundredths, and `overall - 2` in
-- three-hundredths
abbrev pub lower_buyer : Uuid → ℤ → ℕ → Action World (Unit {0})
lower_buyer b score requests =
    if leb 3 requests
    then update_rating b (λ r. record r { score = max_zero (score -ℤ pos 200) })
    else pure tt

unfoldable pub lower_seller : Uuid → ℕ → Action World (Unit {0})
unfolding ensure_seller_rating
lower_seller s requests =
    if leb 5 requests
    then (do
      r ← ensure_seller_rating s
      update_seller_rating s (λ q. record q { overall = max_zero (r.overall -ℤ pos 600) }))
    else pure tt

unfoldable pub on_replacement_requested : Uuid → Uuid → Action World (Unit {0})
unfolding ensure_buyer_rating lower_seller
on_replacement_requested b s = do
  rating ← ensure_buyer_rating b
  update_rating b (λ r. record r { replacement_count = r.replacement_count + 1 })
  of_buyer ← gets (buyer_requests b 90)
  lower_buyer b rating.score of_buyer
  for_seller ← gets (seller_requests s 30)
  lower_seller s for_seller
