-- ===== src/Cart/Redis.antt =====
-- Loading, saving and clearing the cart under `orders:cart:…`, and the index of the carts by stream.
use vybekart_backend.Shared.{
  ℕ, ◌+◌, ◌*◌, Bool, false, not, ◌&&◌, Option, none, some, [], ◌∷◌, leb, ◌==◌, if◌then◌else◌,
}
use vybekart_backend.Shared.Lists.{is_empty, any, filter}
use vybekart_backend.Shared.Action.{Action, pure, gets, modify, ◌>>=◌, ◌>>◌}
use vybekart_backend.Data.{World, Uuid}
use vybekart_backend.Data.Carts.{CartState, StoredCart, legacy, saved, garbage, CartEntry, Holder}
use vybekart_backend.Data.Table.{row}

abbrev pub empty_cart : CartState
empty_cart = record {
  items = [];
  stream_id = none;
  stream_title = none;
  cart_expires_at = none;
  cart_updated_at = none;
}

-- A key whose time has come is gone.
abbrev pub is_gone : ℕ → Option ℕ → Bool
is_gone now none = false
is_gone now (some t) = leb t now

-- `redis.get`
abbrev pub stored_cart : Uuid → World → Option StoredCart
stored_cart u w = elim (row (λ e. e.user_id) u w.carts) [
  | none ↦ none
  | some e ↦ if is_gone w.now e.expires then none else some e.cart
]

abbrev pub read_cart : Option StoredCart → CartState
read_cart none = empty_cart
read_cart (some (legacy is)) = record empty_cart { items = is; cart_updated_at = some 0 }
read_cart (some (saved c)) = c
read_cart (some garbage) = empty_cart

unfoldable pub load_cart_state : Uuid → Action World CartState
load_cart_state u = gets (λ w. read_cart (stored_cart u w))

abbrev pub is_holder : Uuid → Uuid → Holder → Bool
is_holder s u h = h.stream_id == s && h.user_id == u

-- `redis.sadd`, for a stream if there is one
abbrev pub index_cart : Uuid → Option Uuid → Action World (Unit {0})
index_cart u none = pure tt
index_cart u (some s) = modify (λ w.
    if any (is_holder s u) w.holders
    then w
    else record w { holders = record { stream_id = s; user_id = u } ∷ w.holders })

-- `redis.srem`
abbrev pub unindex_cart : Uuid → Option Uuid → Action World (Unit {0})
unindex_cart u none = pure tt
unindex_cart u (some s) =
    modify (λ w. record w { holders = filter (λ h. not (is_holder s u h)) w.holders })

abbrev pub other_user : Uuid → CartEntry → Bool
other_user u e = not (e.user_id == u)

-- `redis.del`
abbrev pub delete_cart : Uuid → Action World (Unit {0})
delete_cart u = modify (λ w. record w { carts = filter (other_user u) w.carts })

unfoldable pub clear_cart : Uuid → Option Uuid → Action World (Unit {0})
clear_cart u s = do delete_cart u; unindex_cart u s

-- The deadline of `set` with a time to live in seconds; 0 is none.
abbrev pub deadline : ℕ → Option ℕ → Option ℕ
deadline now none = none
deadline now (some ttl) = if ttl == 0 then none else some (now + ttl * 1000)

-- `redis.set`
abbrev pub store_cart : Uuid → CartState → Option ℕ → Action World (Unit {0})
store_cart u c ttl = modify (λ w. record w {
  carts =
      record { user_id = u; cart = saved c; expires = deadline w.now ttl }
      ∷ filter (other_user u) w.carts;
})

abbrev pub touched : ℕ → CartState → CartState
touched now c = record c { cart_updated_at = some now }

unfoldable pub save_cart_state : Uuid → CartState → Option ℕ → Action World (Unit {0})
unfolding clear_cart
save_cart_state u c ttl =
    if is_empty c.items
    then clear_cart u c.stream_id
    else (do now ← gets (λ w. w.now); store_cart u (touched now c) ttl; index_cart u c.stream_id)
