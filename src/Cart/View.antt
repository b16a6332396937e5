-- ===== src/Cart/View.antt =====
-- `getCart`: the lines that still exist with their present prices, and the totals.
use vybekart_backend.Shared.{
  ℕ, ◌+◌, ◌*◌, Option, none, some, List, [], ◌∷◌, ltb, ◌==◌, if◌then◌else◌,
}
use vybekart_backend.Shared.Lists.{is_empty}
use vybekart_backend.Shared.Text.{Text}
use vybekart_backend.Shared.Action.{Action, pure, gets, ◌>>=◌, ◌>>◌}
use vybekart_backend.Json.{Conversions}
use vybekart_backend.Variants.Parse.{VariantItem}
use vybekart_backend.Variants.Stock.{has_items, find_item}
use vybekart_backend.Data.{World, Uuid, Stream, Product}
use vybekart_backend.Data.Carts.{CartItem, CartState}
use vybekart_backend.Orders.Lookup.{product_row}
use vybekart_backend.Orders.Validate.{stream_row}
use vybekart_backend.Orders.Packing.{unless_blank}
use vybekart_backend.Cart.Redis.{clear_cart}
use vybekart_backend.Cart.Expiry.{expiry_from_end, effective_end, seconds_left, load_cart_for_user}

-- A line with its price; the amount is the price times the quantity.
pub record PricedItem : Type 0 where
  pub item : CartItem
  pub unit_price : ℕ
  pub amount : ℕ

pub record CartView : Type 0 where
  pub items : List PricedItem
  pub subtotal : ℕ
  pub shipping : ℕ
  pub total : ℕ
  pub stream_id : Option Uuid
  pub stream_title : Option Text
  pub checkout_expires_at : Option ℕ
  pub seconds_remaining : ℕ

abbrev pub empty_view : CartView
empty_view = record {
  items = [];
  subtotal = 0;
  shipping = 0;
  total = 0;
  stream_id = none;
  stream_title = none;
  checkout_expires_at = none;
  seconds_remaining = 0;
}

abbrev pub priced_at : CartItem → ℕ → PricedItem
priced_at i p = record { item = i; unit_price = p; amount = p * i.quantity }

abbrev pub variant_price : CartItem → Option VariantItem → Option PricedItem
variant_price i none = none
variant_price i (some v) = some (priced_at i v.selling_price)

module _ (js : Conversions) where
  abbrev pub of_variant : CartItem → Product → Option Text → Option PricedItem
  of_variant i p none = none
  of_variant i p (some []) = none
  of_variant i p (some (c ∷ v)) = variant_price i (find_item js p.variants (c ∷ v))

  -- `none` is a line that is dropped.
  abbrev pub price_item : CartItem → Option Product → Option PricedItem
  price_item i none = none
  price_item i (some p) =
      if has_items js p.variants then of_variant i p i.variant_id else some (priced_at i p.price)

  unfoldable pub price_items : World → List CartItem → List PricedItem
  price_items w [] = []
  price_items w (i ∷ is) = elim (price_item i (product_row i.product_id w)) [
    | none ↦ price_items w is
    | some q ↦ q ∷ price_items w is
  ]

-- `normalized.reduce((sum, i) => sum + i.amount, 0)`
unfoldable pub subtotal_from : ℕ → List PricedItem → ℕ
subtotal_from acc [] = acc
subtotal_from acc (i ∷ is) = subtotal_from (acc + i.amount) is

-- 90 rupees, unless the cart is worth nothing
abbrev pub shipping_for : ℕ → ℕ
shipping_for subtotal = if ltb 0 subtotal then 9000 else 0

abbrev pub view_of : CartState → List PricedItem → ℕ → Option ℕ → ℕ → CartView
view_of c is subtotal expires seconds = record {
  items = is;
  subtotal = subtotal;
  shipping = shipping_for subtotal;
  total = subtotal + shipping_for subtotal;
  stream_id = c.stream_id;
  stream_title = unless_blank c.stream_title;
  checkout_expires_at = expires;
  seconds_remaining = seconds;
}

-- The deadline that is shown for a stream that has ended, where the cart records none.
abbrev pub shown_deadline : Option Stream → Option ℕ
shown_deadline none = none
shown_deadline (some s) = if s.is_live then none else some (expiry_from_end (effective_end s))

abbrev pub stream_if : Option Uuid → World → Option Stream
stream_if none w = none
stream_if (some k) w = stream_row k w

abbrev pub seconds_until : ℕ → Option ℕ → ℕ
seconds_until now none = 0
seconds_until now (some t) = seconds_left now t

unfoldable pub view_cart : Uuid → CartState → List PricedItem → ℕ → Option ℕ → Action World CartView
unfolding clear_cart
view_cart u c is subtotal none = do
  now ← gets (λ w. w.now)
  s ← gets (stream_if c.stream_id)
  pure (view_of c is subtotal (shown_deadline s) (seconds_until now (shown_deadline s)))
view_cart u c is subtotal (some t) = do
  now ← gets (λ w. w.now)
  (if seconds_left now t == 0
      then (do clear_cart u c.stream_id; pure empty_view)
      else pure (view_of c is subtotal (some t) (seconds_left now t)))

unfoldable pub get_cart : Conversions → Uuid → Action World CartView
unfolding load_cart_for_user price_items subtotal_from view_cart
get_cart js u = do
  c ← load_cart_for_user u
  (if is_empty c.items then pure empty_view else (do
    is ← gets (λ w. price_items js w c.items)
    view_cart u c is (subtotal_from 0 is) c.cart_expires_at))
