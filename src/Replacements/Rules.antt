-- ===== src/Replacements/Rules.antt =====
-- The look-ups of the service, and the rules on prices and on who may fulfil.
use vybekart_backend.Shared.{
  ℕ, ◌-◌, Bool, true, false, not, ◌&&◌, Option, none, some, [], ◌∷◌, ltb, ◌==◌, if◌then◌else◌,
}
use vybekart_backend.Shared.Text.{Text}
use vybekart_backend.Shared.Action.{
  Action, Result, ok, err, bad_request, not_found, internal, gets, required, throw_if, modify,
  ◌>>=◌, ◌>>◌,
}
use vybekart_backend.Json.{Conversions}
use vybekart_backend.Variants.Parse.{VariantItem}
use vybekart_backend.Variants.Stock.{has_items, find_item}
use vybekart_backend.Data.{World, Uuid, Product, Seller}
use vybekart_backend.Data.Orders.{OrderItem}
use vybekart_backend.Data.Replacements.{
  Replacement, ReplacementStatus, requested, pending_admin_review, awaiting_payment, approved,
  rejected, packed, shipped, delivered, BalanceStatus, no_balance, balance_pending, balance_paid,
}
use vybekart_backend.Data.Table.{row, update}

abbrev pub rank : ReplacementStatus → ℕ
rank requested = 0
rank pending_admin_review = 1
rank awaiting_payment = 2
rank approved = 3
rank rejected = 4
rank packed = 5
rank shipped = 6
rank delivered = 7

-- `s === t`
abbrev pub status_eq : ReplacementStatus → ReplacementStatus → Bool
status_eq s t = rank s == rank t

abbrev pub is_paid : BalanceStatus → Bool
is_paid balance_paid = true
is_paid _ = false

abbrev pub replacement_row : Uuid → World → Option Replacement
replacement_row k w = row (λ r. r.id) k w.replacements

abbrev pub if_sold_by : Uuid → Option Replacement → Option Replacement
if_sold_by s none = none
if_sold_by s (some r) = if r.seller_id == s then some r else none

abbrev pub if_bought_by : Uuid → Option Replacement → Option Replacement
if_bought_by b none = none
if_bought_by b (some r) = if r.buyer_id == b then some r else none

-- `findFirst({ where: { id, sellerId } })` after the seller has been found
unfoldable pub seller_replacement : Uuid → Seller → Action World Replacement
seller_replacement k s = do
  found ← gets (λ w. if_sold_by s.id (replacement_row k w))
  required found (not_found "Replacement not found")

unfoldable pub find_replacement : Uuid → Action World Replacement
find_replacement k = do
  found ← gets (replacement_row k)
  required found (not_found "Replacement not found")

-- `replacementRequest.update({ where: { id }, data })`, which returns the new row
unfoldable pub update_replacement : Uuid → (Replacement → Replacement) → Action World Replacement
update_replacement k f = do
  modify (λ w. record w { replacements = update (λ r. r.id) k f w.replacements })
  found ← gets (replacement_row k)
  required found internal

-- `assertSellerCanFulfill`
abbrev pub assert_seller_can_fulfill : Replacement → Action World (Unit {0})
assert_seller_can_fulfill r = do
  throw_if (status_eq r.status awaiting_payment) (bad_request "Waiting for buyer balance payment")
  throw_if (ltb 0 r.balance_due && not (is_paid r.balance_payment_status))
      (bad_request "Buyer has not paid the balance amount")

-- `resolveApprovalStatus`
abbrev pub resolve_approval_status : ℕ → ReplacementStatus × BalanceStatus
resolve_approval_status balance =
    if ltb 0 balance then (awaiting_payment, balance_pending) else (approved, no_balance)

pub record Pricing : Type 0 where
  pub original_unit_price : ℕ
  pub replacement_unit_price : ℕ
  pub replacement_variant_label : Option Text
  pub balance_due : ℕ

-- `Math.max(0, replacementUnitPrice - originalUnitPrice)` is subtraction that stops at 0.
abbrev pub pricing_of : ℕ → ℕ → Option Text → Pricing
pricing_of original price label = record {
  original_unit_price = original;
  replacement_unit_price = price;
  replacement_variant_label = label;
  balance_due = price - original;
}

abbrev pub variant_pricing : ℕ → Option VariantItem → Result Pricing
variant_pricing original none = err (bad_request "Invalid replacement variant")
variant_pricing original (some v) = ok (pricing_of original v.selling_price (some v.label))

module _ (js : Conversions) where
  abbrev pub split_pricing : ℕ → Product → Option Text → Result Pricing
  split_pricing original p none = err (bad_request "Please select a replacement variant")
  split_pricing original p (some []) = err (bad_request "Please select a replacement variant")
  split_pricing original p (some (c ∷ v)) =
      variant_pricing original (find_item js p.variants (c ∷ v))

  abbrev pub plain_pricing : ℕ → Product → Option Text → Result Pricing
  plain_pricing original p none = ok (pricing_of original p.price none)
  plain_pricing original p (some []) = ok (pricing_of original p.price none)
  plain_pricing original p (some (c ∷ v)) = err (bad_request "This product has no variants")

  -- `computePricing`
  unfoldable pub compute_pricing : OrderItem → Product → Option Text → Result Pricing
  compute_pricing i p v =
      if has_items js p.variants then split_pricing i.price p v else plain_pricing i.price p v
