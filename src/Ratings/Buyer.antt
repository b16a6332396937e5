-- ===== src/Ratings/Buyer.antt =====
-- The ratings of buyers: `ensureBuyerRating`, `getBuyerScore`, `recordDeliveredOrder` and
-- `adminPatchBuyerRating`.
use vybekart_backend.Shared.{◌+◌, Option, none, some, ◌++◌, [], ◌∷◌}
use vybekart_backend.Shared.Int.{ℤ, pos}
use vybekart_backend.Shared.Text.{Text, codes}
use vybekart_backend.Shared.Action.{Action, internal, pure, gets, required, modify, ◌>>=◌, ◌>>◌}
use vybekart_backend.Data.{World, Uuid, BuyerRating}
use vybekart_backend.Data.Ratings.{RatingOverride, buyer}
use vybekart_backend.Data.Table.{row, update}

abbrev pub default_rating : Uuid → BuyerRating
default_rating b = record {
  buyer_id = b;
  score = pos 500;
  replacement_count = 0;
  delivered_count = 0;
}

abbrev pub buyer_rating : Uuid → World → Option BuyerRating
buyer_rating b w = row (λ r. r.buyer_id) b w.buyer_ratings

-- `buyerRating.create`
abbrev pub insert_buyer_rating : BuyerRating → Action World (Unit {0})
insert_buyer_rating r = modify (λ w. record w { buyer_ratings = w.buyer_ratings ++ (r ∷ []) })

abbrev pub buyer_rating_or_default : Uuid → Option BuyerRating → Action World BuyerRating
buyer_rating_or_default b (some r) = pure r
buyer_rating_or_default b none = do insert_buyer_rating (default_rating b); pure (default_rating b)

-- `RatingsService.ensureBuyerRating`
unfoldable pub ensure_buyer_rating : Uuid → Action World BuyerRating
ensure_buyer_rating b = do found ← gets (buyer_rating b); buyer_rating_or_default b found

abbrev pub update_rating : Uuid → (BuyerRating → BuyerRating) → Action World (Unit {0})
update_rating b f =
    modify (λ w. record w { buyer_ratings = update (λ r. r.buyer_id) b f w.buyer_ratings })

-- `RatingsService.recordDeliveredOrder`
unfoldable pub record_delivered_order : Uuid → Action World (Unit {0})
unfolding ensure_buyer_rating
record_delivered_order b = do
  ensure_buyer_rating b
  update_rating b (λ r. record r { delivered_count = r.delivered_count + 1 })

unfoldable pub get_buyer_score : Uuid → Action World ℤ
unfolding ensure_buyer_rating
get_buyer_score b = do r ← ensure_buyer_rating b; pure r.score

-- `logOverride`
abbrev pub log_override : RatingOverride → Action World (Unit {0})
log_override l = modify (λ w. record w { rating_logs = l ∷ w.rating_logs })

abbrev pub score_log : Uuid → Uuid → ℤ → ℤ → Option Text → RatingOverride
score_log b admin old score reason = record {
  admin_user_id = admin;
  entity_type = buyer;
  entity_id = b;
  changed_field = codes "score";
  old_value = old;
  new_value = score;
  reason = reason;
}

unfoldable pub admin_patch_buyer_rating : Uuid → Uuid → ℤ → Option Text → Action World BuyerRating
unfolding ensure_buyer_rating
admin_patch_buyer_rating b admin score reason = do
  existing ← ensure_buyer_rating b
  log_override (score_log b admin existing.score score reason)
  update_rating b (λ r. record r { score = score })
  found ← gets (buyer_rating b)
  required found internal
