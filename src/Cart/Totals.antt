-- ===== src/Cart/Totals.antt =====
-- What the totals of a cart that is shown mean.
use vybekart_backend.Shared.{
  ℕ, ◌+◌, ◌*◌, ◌≡◌, refl, ◌∙◌, Bool, true, false, Option, none, some, List, [], ◌∷◌, ◌==◌, arith,
  if◌then◌else◌,
}
use vybekart_backend.Shared.Lists.{All, is_empty}
use vybekart_backend.Shared.Text.{Text}
use vybekart_backend.Shared.Action.{ok, pure, gets}
use vybekart_backend.Shared.Returns.{Returns, Returns-bind, Returns-if, anything-Returns}
use vybekart_backend.Json.{Conversions}
use vybekart_backend.Variants.Parse.{VariantItem}
use vybekart_backend.Variants.Stock.{has_items}
use vybekart_backend.Data.{World, Uuid, Product}
use vybekart_backend.Data.Carts.{CartItem, CartState}
use vybekart_backend.Orders.Lookup.{product_row}
use vybekart_backend.Cart.Redis.{clear_cart}
use vybekart_backend.Cart.Expiry.{seconds_left, load_cart_for_user}
use vybekart_backend.Cart.View.{
  PricedItem, CartView, empty_view, variant_price, of_variant, price_item, price_items,
  subtotal_from, shipping_for, view_of, stream_if, view_cart, get_cart, shown_deadline,
  seconds_until,
}

-- What the lines are worth: the price of each times its quantity.
abbrev pub worth : List PricedItem → ℕ
worth [] = 0
worth (i ∷ is) = i.unit_price * i.item.quantity + worth is

abbrev pub HasAmount : PricedItem → Type 0
HasAmount i = i.amount ≡ i.unit_price * i.item.quantity

pub subtotal_from-worth :
    (is : List PricedItem) (acc : ℕ) → All HasAmount is → subtotal_from acc is ≡ acc + worth is
unfolding subtotal_from
subtotal_from-worth [] acc _ = omega arith
subtotal_from-worth (i ∷ is) acc (h, hs) =
    subtotal_from-worth is (acc + i.amount) hs ∙ rw h (omega arith)

abbrev AmountIn : Option PricedItem → Type 0
AmountIn none = Unit
AmountIn (some i) = HasAmount i

variant_price-AmountIn : (i : CartItem) (v : Option VariantItem) → AmountIn (variant_price i v)
variant_price-AmountIn i none = tt
variant_price-AmountIn i (some v) = refl

abbrev pub IsTotalled : CartView → Type 0
IsTotalled v =
    (v.subtotal ≡ worth v.items)
    × (v.shipping ≡ (if worth v.items == 0 then 0 else 9000))
    × (v.total ≡ v.subtotal + v.shipping)

module _ (js : Conversions) where
  of_variant-AmountIn :
      (i : CartItem) (p : Product) (v : Option Text) → AmountIn (of_variant js i p v)
  of_variant-AmountIn i p none = tt
  of_variant-AmountIn i p (some []) = tt
  of_variant-AmountIn i p (some (c ∷ v)) = variant_price-AmountIn i _

  by_kind :
      (split : Bool) (i : CartItem) (p : Product)
      → AmountIn (
          if split
          then of_variant js i p i.variant_id
          else some (record { item = i; unit_price = p.price; amount = p.price * i.quantity }))
  by_kind true i p = of_variant-AmountIn i p i.variant_id
  by_kind false i p = refl

  price_item-AmountIn : (i : CartItem) (o : Option Product) → AmountIn (price_item js i o)
  price_item-AmountIn i none = tt
  price_item-AmountIn i (some p) = by_kind (has_items js p.variants) i p

  price_items-HasAmount : (w : World) (is : List CartItem) → All HasAmount (price_items js w is)
  unfolding price_items
  price_items-HasAmount w [] = tt
  price_items-HasAmount w (i ∷ is) =
      by_line (price_item js i (product_row i.product_id w)) (price_item-AmountIn i _)
        (price_items-HasAmount w is)
    where
      by_line :
          (o : Option PricedItem)
          → AmountIn o
          → All HasAmount (price_items js w is)
          → All HasAmount (elim o as (λ _. List PricedItem) [
            | none ↦ price_items js w is
            | some q ↦ q ∷ price_items js w is
          ])
      by_line none h rest = rest
      by_line (some q) h rest = (h, rest)

  shipping-lem : (n : ℕ) → shipping_for n ≡ (if n == 0 then 0 else 9000)
  shipping-lem n = ground arith

  empty-Returns : Returns {S = World} IsTotalled (pure empty_view)
  empty-Returns = record { at = λ _. (refl, refl, refl) }

  view_of-IsTotalled :
      (c : CartState) (is : List PricedItem) (t : Option ℕ) (s : ℕ)
      → All HasAmount is
      → IsTotalled (view_of c is (subtotal_from 0 is) t s)
  view_of-IsTotalled c is t s h =
      let sum = subtotal_from-worth is 0 h in
      let zero_first : subtotal_from 0 is ≡ worth is = sum ∙ omega arith in
      (zero_first, shipping-lem (subtotal_from 0 is) ∙ rw zero_first refl, refl)

  view_of-Returns :
      (c : CartState) (is : List PricedItem) (t : Option ℕ) (s : ℕ)
      → All HasAmount is
      → Returns {S = World} IsTotalled (pure (view_of c is (subtotal_from 0 is) t s))
  view_of-Returns c is t s h = record { at = λ _. view_of-IsTotalled c is t s h }

  view_cart-Returns :
      (u : Uuid) (c : CartState) (is : List PricedItem) (t : Option ℕ)
      → All HasAmount is
      → Returns IsTotalled (view_cart u c is (subtotal_from 0 is) t)
  unfolding view_cart
  view_cart-Returns u c is none h = Returns-bind (anything-Returns (gets (λ w. w.now))) λ now _.
      Returns-bind (anything-Returns (gets (stream_if c.stream_id)))
        λ s _. view_of-Returns c is (shown_deadline s) (seconds_until now (shown_deadline s)) h
  view_cart-Returns u c is (some t) h = Returns-bind (anything-Returns (gets (λ w. w.now))) λ now _.
      Returns-if (seconds_left now t == 0)
        (Returns-bind (anything-Returns (clear_cart u c.stream_id)) λ _ _. empty-Returns)
        (view_of-Returns c is (some t) (seconds_left now t) h)

  get_cart-Returns : (u : Uuid) → Returns IsTotalled (get_cart js u)
  unfolding get_cart
  get_cart-Returns u = Returns-bind (anything-Returns (load_cart_for_user u)) λ c _.
      Returns-if (is_empty c.items) (empty-Returns)
        (Returns-bind (lines c) λ is h. view_cart-Returns u c is c.cart_expires_at h)
    where
      lines : (c : CartState) → Returns (All HasAmount) (gets (λ w. price_items js w c.items))
      lines c = record { at = λ w. price_items-HasAmount w c.items }

  -- The cart that is shown: its subtotal is the sum over its lines of the price times the quantity,
  -- its shipping is 90 rupees unless that sum is 0, and its total is the subtotal plus the shipping.
  -- This holds whether the lines are priced by product or by variant, and also for a cart that has
  -- just expired.
  pub get_cart-IsTotalled :
      (u : Uuid) (w t : World) (v : CartView) → get_cart js u w ≡ (ok v, t) → IsTotalled v
  get_cart-IsTotalled u w t v e = rw e at ((get_cart-Returns u).at w)
