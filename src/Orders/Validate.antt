-- ===== src/Orders/Validate.antt =====
-- `assertStreamAndProducts` and `validateOrderItems`: whether lines can become an order now. The
-- source looks at each product id once; looking again at a repeated id changes nothing.
use vybekart_backend.Shared.{
  ℕ, ◌+◌, ◌*◌, Bool, true, false, not, Option, none, some, List, [], ◌∷◌, ltb, ◌==◌, if◌then◌else◌,
  is_some, ◌otherwise◌,
}
use vybekart_backend.Shared.Lists.{is_empty, any, every}
use vybekart_backend.Shared.Int.{pos, ltb_ℤ}
use vybekart_backend.Shared.Text.{Text, trim}
use vybekart_backend.Shared.Action.{
  Action, Result, ok, err, bad_request, pure, gets, required, throw_if, of_result, ◌>>=◌, ◌>>◌,
}
use vybekart_backend.Json.{Conversions}
use vybekart_backend.Variants.Parse.{VariantItem}
use vybekart_backend.Variants.Stock.{has_items, find_item}
use vybekart_backend.Data.{World, Uuid, Stream, Product}
use vybekart_backend.Data.Table.{row}
use vybekart_backend.Orders.Lookup.{product_row}

-- A line that is asked for: `CreateOrderItemDto`.
pub record OrderLine : Type 0 where
  pub product_id : Uuid
  pub quantity : ℕ
  pub variant_id : Option Text
  pub variant_label : Option Text

-- `setHours(getHours() + 24)`, in a time zone without daylight saving
abbrev pub post_live_ms : ℕ
post_live_ms = 24 * 60 * 60 * 1000

abbrev pub stream_row : Uuid → World → Option Stream
stream_row k w = row (λ s. s.id) k w.streams

-- The tests on the stream, by whether it is live and whether it has ended.
abbrev pub check_window : ℕ → Bool → Option ℕ → Result (Unit {0})
check_window now false (some ended) =
    if ltb (ended + post_live_ms) now
    then err (bad_request "Your cart from this live stream has expired.")
    else ok tt
check_window now false none =
    err (bad_request "This stream has ended; you cannot purchase from a replay.")
check_window now true (some ended) =
    err (bad_request "This stream is no longer available for checkout.")
check_window now true none = ok tt

abbrev pub lists_product : Stream → Uuid → Bool
lists_product s k = any (λ p. p == k) s.product_ids

unfoldable pub assert_stream_and_products : Uuid → List Uuid → Action World (Unit {0})
assert_stream_and_products k ids = do
  s ← required (← gets (stream_row k)) (bad_request "Invalid stream")
  throw_if (not (is_some s.started_at)) (bad_request "This stream has not started yet")
  now ← gets (λ w. w.now)
  of_result (check_window now s.is_live s.ended_at)
  throw_if (not (every (lists_product s) ids))
      (bad_request "Product is not part of this live stream listing")

abbrev pub product_ids_of : List OrderLine → List Uuid
product_ids_of [] = []
product_ids_of (l ∷ ls) = l.product_id ∷ product_ids_of ls

-- `!s?.trim()`
abbrev pub is_blank : Option Text → Bool
is_blank none = true
is_blank (some s) = is_empty (trim s)

module _ (js : Conversions) where
  abbrev pub check_variant : OrderLine → Option VariantItem → Result (Unit {0})
  check_variant l none = err (bad_request "Invalid variant for product")
  check_variant l (some v) =
      if ltb_ℤ v.stock (pos l.quantity) then err (bad_request "Insufficient stock") else ok tt

  -- The body of the loop over the lines.
  unfoldable pub check_line : OrderLine → Option Product → Result (Unit {0})
  check_line l none = err (bad_request "Product not found")
  check_line l (some p) =
      if has_items js p.variants
      then if is_blank l.variant_id
        then err (bad_request "variantId is required for product")
        else check_variant l (find_item js p.variants (l.variant_id otherwise []))
      else if ltb_ℤ p.stock (pos l.quantity)
      then err (bad_request "Insufficient stock for product")
      else ok tt

  unfoldable pub check_lines : List OrderLine → Action World (Unit {0})
  unfolding check_line
  check_lines [] = pure tt
  check_lines (l ∷ ls) = do
    p ← gets (product_row l.product_id)
    of_result (check_line l p)
    check_lines ls

  unfoldable pub validate_order_items : Uuid → List OrderLine → Action World (Unit {0})
  unfolding assert_stream_and_products check_lines
  validate_order_items stream ls = do
    throw_if (is_empty ls) (bad_request "Order must have at least one item")
    assert_stream_and_products stream (product_ids_of ls)
    found ← gets (λ w. every (λ k. is_some (product_row k w)) (product_ids_of ls))
    throw_if (not found) (bad_request "One or more products not found")
    check_lines ls
