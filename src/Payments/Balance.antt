-- ===== src/Payments/Balance.antt =====
-- `createReplacementBalanceOrder` and `verifyReplacementBalancePayment`: the payment for a dearer
-- replacement.
pub mod Again
use vybekart_backend.Shared.{
  ℕ, ◌+◌, Bool, true, false, not, ◌&&◌, ◌||◌, Option, none, some, List, ◌∷◌, ltb, leb, ◌==◌,
  if◌then◌else◌,
}
use vybekart_backend.Shared.Lists.{filter, find}
use vybekart_backend.Shared.Action.{
  Action, bad_request, forbidden, service_unavailable, internal, pure, gets, required, throw_if,
  modify, ◌>>=◌, ◌>>◌,
}
use vybekart_backend.Data.{World, Uuid}
use vybekart_backend.Data.Carts.{PendingBalance}
use vybekart_backend.Data.Replacements.{Replacement, ReplacementStatus, awaiting_payment, approved}
use vybekart_backend.Orders.Lookup.{buyer_row}
use vybekart_backend.Replacements.Rules.{
  status_eq, is_paid, replacement_row, if_bought_by, update_replacement,
}
use vybekart_backend.Replacements.Decide.{as_balance_paid}
use vybekart_backend.Payments.Gateway.{Gateway, verify_signature}
use vybekart_backend.Payments.Collect.{pending_ms}
use vybekart_backend.Payments.Verify.{Payment, paid_with}

-- What is sent back, less the fields that are copied from the configuration and from the user.
pub record BalanceOrder : Type 0 where
  pub razorpay_order_id : Uuid
  pub amount : ℕ
  pub replacement_id : Uuid
  pub balance_due : ℕ

abbrev pub other_balance : Uuid → PendingBalance → Bool
other_balance k p = not (p.razorpay_order_id == k)

-- `redis.set(this.replacementPendingKey(id), …)` and `redis.del` of the key
abbrev pub store_balance : PendingBalance → Action World (Unit {0})
store_balance p =
    modify (λ w. record w { balances = p ∷ filter (other_balance p.razorpay_order_id) w.balances })

abbrev pub drop_balance : Uuid → Action World (Unit {0})
drop_balance k = modify (λ w. record w { balances = filter (other_balance k) w.balances })

-- `redis.get` of the key
abbrev pub pending_balance : Uuid → World → Option PendingBalance
pending_balance k w = find (λ p. p.razorpay_order_id == k && not (leb p.expires w.now)) w.balances

abbrev pub with_order : Uuid → Replacement → Replacement
with_order order r = record r { razorpay_order_id = some order }

abbrev pub balance_order : Uuid → Replacement → BalanceOrder
balance_order order r = record {
  razorpay_order_id = order;
  amount = r.balance_due;
  replacement_id = r.id;
  balance_due = r.balance_due;
}

-- The order that the request has already, or a new one. Amounts are in paise as they are.
unfoldable pub order_for :
    Gateway → Uuid → Uuid → Replacement → Option Uuid → Action World BalanceOrder
unfolding update_replacement
order_for g u k r (some order) = pure (balance_order order r)
order_for g u k r none = do
  throw_if (ltb r.balance_due 100) (bad_request "Minimum payable amount is ₹1")
  order ← required (g.create_order r.balance_due) internal
  update_replacement k (with_order order)
  now ← gets (λ w. w.now)
  store_balance (record {
    razorpay_order_id = order;
    user_id = u;
    replacement_id = k;
    amount_paise = r.balance_due;
    expires = now + pending_ms;
  })
  pure (balance_order order r)

unfoldable pub create_balance_order : Gateway → Uuid → Uuid → Action World BalanceOrder
unfolding order_for
create_balance_order g u k = do
  throw_if (not g.configured) (service_unavailable "Razorpay is not configured on the server")
  b ← required (← gets (buyer_row u)) (forbidden "Buyer not found")
  r ←
      required (← gets (λ w. if_bought_by b.id (replacement_row k w)))
        (bad_request "Replacement not found")
  throw_if (not (status_eq r.status awaiting_payment)) (bad_request "No balance payment is due")
  throw_if (leb r.balance_due 0) (bad_request "No balance payment is due")
  throw_if (is_paid r.balance_payment_status) (bad_request "Balance already paid")
  order_for g u k r r.razorpay_order_id

abbrev pub if_ordered_as : Uuid → Option Replacement → Option Replacement
if_ordered_as order none = none
if_ordered_as order (some r) = if paid_with order r.razorpay_order_id then some r else none

-- What is sent back of a payment: the id and the status of the request.
pub record BalanceResult : Type 0 where
  pub replacement_id : Uuid
  pub status : ReplacementStatus

abbrev pub result_of : Replacement → BalanceResult
result_of r = record { replacement_id = r.id; status = r.status }

-- `update` with the data of the payment, less the log
unfoldable pub settle_balance : Uuid → Uuid → Payment → Action World BalanceResult
unfolding update_replacement
settle_balance u k d = do
  p ←
      required (← gets (pending_balance d.razorpay_order_id))
        (bad_request "Payment session expired. Please try again.")
  throw_if (not (p.user_id == u) || not (p.replacement_id == k))
      (forbidden "Payment does not belong to this user")
  r ← update_replacement k (as_balance_paid d.razorpay_payment_id)
  drop_balance d.razorpay_order_id
  pure (result_of r)

-- `k` is the request that the buyer names beside the payment.
unfoldable pub verify_balance_payment : Gateway → Uuid → Uuid → Payment → Action World BalanceResult
unfolding verify_signature settle_balance
verify_balance_payment g u k d = do
  throw_if (not g.configured) (service_unavailable "Razorpay is not configured on the server")
  verify_signature g d.razorpay_order_id d.razorpay_payment_id d.razorpay_signature
  b ← required (← gets (buyer_row u)) (forbidden "Buyer not found")
  r ←
      required
        (← gets (λ w. if_ordered_as d.razorpay_order_id (if_bought_by b.id (replacement_row k w))))
        (bad_request "Replacement payment not found")
  (if is_paid r.balance_payment_status then pure (result_of r) else settle_balance u k d)
