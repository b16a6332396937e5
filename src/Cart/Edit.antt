-- ===== src/Cart/Edit.antt =====
-- `addCartItem`, `updateCartItem` and `removeCartItem`. A line is found by its product and the
-- trimmed id of its variant.
use vybekart_backend.Shared.{
  ℕ, Bool, false, not, ◌&&◌, Option, none, some, List, [], ◌∷◌, ◌++◌, ◌==◌, if◌then◌else◌, is_some,
  ◌or◌, ◌otherwise◌,
}
use vybekart_backend.Shared.Lists.{is_empty, any, filter, update_first}
use vybekart_backend.Shared.Int.{pos, ltb_ℤ}
use vybekart_backend.Shared.Text.{Text, text_eq}
use vybekart_backend.Shared.Action.{
  Action, Result, ok, err, bad_request, not_found, gets, required, throw_if, of_result, ◌>>=◌, ◌>>◌,
}
use vybekart_backend.Json.{Conversions}
use vybekart_backend.Variants.Parse.{VariantItem}
use vybekart_backend.Variants.Stock.{has_items, find_item}
use vybekart_backend.Data.{World, Uuid, Product}
use vybekart_backend.Data.Carts.{CartItem, CartState}
use vybekart_backend.Orders.Lookup.{product_row}
use vybekart_backend.Orders.Validate.{is_blank}
use vybekart_backend.Orders.Create.{trimmed}
use vybekart_backend.Orders.Packing.{unless_blank}
use vybekart_backend.Cart.Redis.{empty_cart}
use vybekart_backend.Cart.Expiry.{load_cart_for_user, persist_cart_state}
use vybekart_backend.Cart.View.{CartView, get_cart}

-- `CartItemDto`
pub record CartInput : Type 0 where
  pub product_id : Uuid
  pub quantity : ℕ
  pub size : Option Text
  pub color : Option Text
  pub variant_id : Option Text
  pub variant_label : Option Text
  pub stream_id : Option Uuid
  pub stream_title : Option Text

-- `variantId?.trim() ?? ''`
abbrev pub variant_key : Option Text → Text
variant_key v = trimmed v otherwise []

abbrev pub is_line : Uuid → Text → CartItem → Bool
is_line k v i = i.product_id == k && text_eq (variant_key i.variant_id) v

abbrev pub check_variant_quantity : ℕ → Option VariantItem → Result (Unit {0})
check_variant_quantity n none = err (bad_request "Invalid variant")
check_variant_quantity n (some v) =
    if ltb_ℤ v.stock (pos n)
    then err (bad_request "Requested quantity exceeds available stock")
    else ok tt

unfoldable pub check_quantity : Conversions → CartInput → Product → Result (Unit {0})
check_quantity js d p =
    if has_items js p.variants
    then if is_blank d.variant_id
      then err (bad_request "variantId is required for this product")
      else check_variant_quantity d.quantity (find_item js p.variants (d.variant_id otherwise []))
    else if ltb_ℤ p.stock (pos d.quantity)
    then err (bad_request "Requested quantity exceeds available stock")
    else ok tt

-- `state.streamId && dto.streamId && dto.streamId !== state.streamId`
abbrev pub other_stream : Option Uuid → Option Uuid → Bool
other_stream (some a) (some b) = not (b == a)
other_stream _ _ = false

abbrev pub set_line : CartInput → CartItem → CartItem
set_line d i = record i {
  quantity = d.quantity;
  size = d.size;
  color = d.color;
  variant_id = trimmed d.variant_id;
  variant_label = trimmed d.variant_label;
}

abbrev pub new_line : CartInput → CartItem
new_line d = record {
  product_id = d.product_id;
  quantity = d.quantity;
  size = d.size;
  color = d.color;
  variant_id = trimmed d.variant_id;
  variant_label = trimmed d.variant_label;
}

unfoldable pub put_line : CartInput → List CartItem → List CartItem
put_line d is =
    if any (is_line d.product_id (variant_key d.variant_id)) is
    then update_first (is_line d.product_id (variant_key d.variant_id)) (set_line d) is
    else is ++ (new_line d ∷ [])

unfoldable pub add_cart_item : Conversions → Uuid → CartInput → Action World CartView
unfolding check_quantity load_cart_for_user put_line persist_cart_state get_cart
add_cart_item js u d = do
  p ← required (← gets (product_row d.product_id)) (not_found "Product not found")
  of_result (check_quantity js d p)
  c ← load_cart_for_user u
  throw_if (is_empty c.items && not (is_some d.stream_id))
      (bad_request "streamId is required — add products from a live stream.")
  throw_if (other_stream c.stream_id d.stream_id)
      (bad_request "Cart is tied to a different live stream. Clear the cart first.")
  persist_cart_state u (record {
    items = put_line d c.items;
    stream_id = c.stream_id or d.stream_id;
    stream_title = unless_blank c.stream_title or unless_blank d.stream_title;
    cart_expires_at = none;
    cart_updated_at = none;
  })
  get_cart js u

unfoldable pub update_cart_item :
    Conversions → Uuid → Uuid → ℕ → Option Text → Action World CartView
unfolding load_cart_for_user persist_cart_state get_cart
update_cart_item js u k n v = do
  c ← load_cart_for_user u
  throw_if (not (any (is_line k (variant_key v)) c.items)) (not_found "Item not found in cart")
  persist_cart_state u (record c {
    items = update_first (is_line k (variant_key v)) (λ i. record i { quantity = n }) c.items;
    cart_updated_at = none;
  })
  get_cart js u

abbrev pub remaining : CartState → List CartItem → CartState
remaining c [] = empty_cart
remaining c (i ∷ is) = record c { items = i ∷ is; cart_updated_at = none }

unfoldable pub remove_cart_item : Conversions → Uuid → Uuid → Option Text → Action World CartView
unfolding load_cart_for_user persist_cart_state get_cart
remove_cart_item js u k v = do
  c ← load_cart_for_user u
  persist_cart_state u (remaining c (filter (λ i. not (is_line k (variant_key v) i)) c.items))
  get_cart js u
