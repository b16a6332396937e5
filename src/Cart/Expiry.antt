-- ===== src/Cart/Expiry.antt =====
-- `enforceCartExpiry`, `onStreamEnded`, `sweepAllCarts`, `loadCartForUser` and `persistCartState`:
-- a cart lives for 24 hours after its stream has ended.
use vybekart_backend.Shared.{
  ℕ, ◌+◌, ◌-◌, ◌/◌, Bool, false, not, ◌||◌, Option, none, some, List, [], ◌∷◌, leb, ltb, ◌==◌,
  if◌then◌else◌, ◌or◌, ◌otherwise◌,
}
use vybekart_backend.Shared.Lists.{is_empty}
use vybekart_backend.Shared.Action.{Action, pure, gets, ◌>>=◌, ◌>>◌}
use vybekart_backend.Data.{World, Uuid, Stream}
use vybekart_backend.Data.Carts.{CartState, CartEntry, Holder}
use vybekart_backend.Orders.Validate.{post_live_ms, stream_row}
use vybekart_backend.Cart.Redis.{
  empty_cart, touched, load_cart_state, index_cart, unindex_cart, clear_cart, save_cart_state,
  is_gone,
}

-- `computeExpiryFromEnd`
abbrev pub expiry_from_end : ℕ → ℕ
expiry_from_end ended = ended + post_live_ms

-- `stream.endedAt ?? stream.session?.endedAt ?? stream.startedAt ?? stream.createdAt`
abbrev pub effective_end : Stream → ℕ
effective_end s = (s.ended_at or s.session_ended_at or s.started_at) otherwise s.created_at

-- `Math.floor((expires - now) / 1000)`, or 0 where that is negative
abbrev pub seconds_left : ℕ → ℕ → ℕ
seconds_left now expires = (expires - now) / 1000

abbrev pub cleared : Uuid → Option Uuid → Action World CartState
unfolding clear_cart
cleared u s = do clear_cart u s; pure empty_cart

-- A cart of no stream: 24 hours after its last update, or at once if that is not known.
abbrev pub enforce_without_stream : Uuid → CartState → ℕ → Action World CartState
unfolding clear_cart
enforce_without_stream u c now =
    let updated = c.cart_updated_at otherwise 0 in
    if updated == 0 || leb (updated + post_live_ms) now then cleared u none else pure c

abbrev pub enforce_after_end : Uuid → CartState → ℕ → ℕ → Action World CartState
unfolding clear_cart save_cart_state
enforce_after_end u c now expires =
    if seconds_left now expires == 0
    then cleared u c.stream_id
    else (let next : CartState = record c {
      cart_expires_at = some expires;
      cart_updated_at = some now;
    } in
        do
          save_cart_state u next (some (seconds_left now expires))
          index_cart u c.stream_id
          pure next)

abbrev pub enforce_with_stream : Uuid → CartState → ℕ → Option Stream → Action World CartState
unfolding clear_cart save_cart_state
enforce_with_stream u c now none = cleared u c.stream_id
enforce_with_stream u c now (some s) =
    if s.is_live
    then (do save_cart_state u (touched now c) none; index_cart u c.stream_id; pure (touched now c))
    else enforce_after_end u c now (expiry_from_end (effective_end s))

abbrev pub enforce_by_stream : Uuid → CartState → Option Uuid → Action World CartState
unfolding clear_cart save_cart_state
enforce_by_stream u c none = do enforce_without_stream u c (← gets (λ w. w.now))
enforce_by_stream u c (some k) = do
  now ← gets (λ w. w.now)
  s ← gets (stream_row k)
  enforce_with_stream u c now s

unfoldable pub enforce_cart_expiry : Uuid → CartState → Action World CartState
unfolding clear_cart save_cart_state
enforce_cart_expiry u c = if is_empty c.items then pure empty_cart else (do
  now ← gets (λ w. w.now)
  (if is_gone now c.cart_expires_at
      then cleared u c.stream_id
      else enforce_by_stream u c c.stream_id))

unfoldable pub load_cart_for_user : Uuid → Action World CartState
unfolding load_cart_state enforce_cart_expiry
load_cart_for_user u = do c ← load_cart_state u; enforce_cart_expiry u c

-- `Math.max(1, …)`
abbrev pub at_least_one : ℕ → ℕ
at_least_one n = if ltb n 1 then 1 else n

abbrev pub persist_enforced : Uuid → CartState → Action World (Unit {0})
unfolding save_cart_state
persist_enforced u c = if is_empty c.items then pure tt else (do
  now ← gets (λ w. w.now)
  elim c.cart_expires_at [
    | none ↦ save_cart_state u c none
    | some t ↦ save_cart_state u c (some (at_least_one (seconds_left now t)))
  ])

unfoldable pub persist_cart_state : Uuid → CartState → Action World (Unit {0})
unfolding clear_cart enforce_cart_expiry save_cart_state
persist_cart_state u c =
    if is_empty c.items
    then clear_cart u c.stream_id
    else (do next ← enforce_cart_expiry u c; persist_enforced u next)

-- `state.streamId !== streamId`
abbrev pub of_stream : Uuid → Option Uuid → Bool
of_stream k none = false
of_stream k (some s) = s == k

abbrev pub refresh_holder : Uuid → ℕ → Uuid → CartState → Action World (Unit {0})
unfolding save_cart_state
refresh_holder k expires u c =
    if is_empty c.items || not (of_stream k c.stream_id) then unindex_cart u (some k) else (do
      now ← gets (λ w. w.now)
      save_cart_state u (record c { cart_expires_at = some expires; cart_updated_at = some now })
          (some (at_least_one (seconds_left now expires))))

-- The loop of `onStreamEnded` over the holders of the stream's carts.
unfoldable pub refresh_holders : Uuid → ℕ → List Holder → Action World (Unit {0})
unfolding load_cart_state save_cart_state
refresh_holders k expires [] = pure tt
refresh_holders k expires (h ∷ hs) = do
  c ← load_cart_state h.user_id
  if h.stream_id == k then refresh_holder k expires h.user_id c else pure tt
  refresh_holders k expires hs

unfoldable pub on_stream_ended : Uuid → ℕ → Action World (Unit {0})
unfolding refresh_holders
on_stream_ended k ended = do
  hs ← gets (λ w. w.holders)
  refresh_holders k (expiry_from_end ended) hs

-- The loop of `sweepAllCarts` over the keys that the scan finds; the result is the number cleared.
unfoldable pub sweep : List CartEntry → ℕ → Action World ℕ
unfolding load_cart_state enforce_cart_expiry
sweep [] cleared_so_far = pure cleared_so_far
sweep (e ∷ es) cleared_so_far = do
  before ← load_cart_state e.user_id
  n ←
      (if is_empty before.items then pure cleared_so_far else (do
        after ← enforce_cart_expiry e.user_id before
        pure (if is_empty after.items then cleared_so_far + 1 else cleared_so_far)))
  sweep es n

unfoldable pub sweep_all_carts : Action World ℕ
unfolding sweep
sweep_all_carts = do es ← gets (λ w. w.carts); sweep es 0
