-- ===== src/Replacements/Status/Balance.antt =====
-- The order for a balance and its payment, as steps of the request that they name.
use vybekart_backend.Shared.{
  ◌+◌, ◌≡◌, refl, sym, true, false, Option, none, some, not, ◌||◌, Bool-cases, inl, inr, ltb, leb,
  ◌==◌,
}
use mathlib.Core.Path.{subst}
use vybekart_backend.Shared.Action.{
  bad_request, forbidden, service_unavailable, internal, gets, pure, ◌>>=◌,
}
use vybekart_backend.Shared.Reads.{require_read-Reads, throw_if-Reads, required-Reads}
use vybekart_backend.Data.{World, Uuid}
use vybekart_backend.Data.Replacements.{
  Replacement, ReplacementStatus, requested, pending_admin_review, awaiting_payment, approved,
  rejected, packed, shipped, delivered,
}
use vybekart_backend.Data.Writes.{nothing, after, before, still, TableOutcome-if, pure-TableOutcome}
use vybekart_backend.Orders.Lookup.{buyer_row}
use vybekart_backend.Replacements.Rules.{status_eq, is_paid, replacement_row, if_bought_by}
use vybekart_backend.Replacements.Decide.{as_balance_paid}
use vybekart_backend.Payments.Gateway.{Gateway, verify_signature-Reads}
use vybekart_backend.Payments.Collect.{pending_ms}
use vybekart_backend.Payments.Verify.{Payment, paid_with}
use vybekart_backend.Payments.Balance.{
  store_balance, drop_balance, pending_balance, with_order, balance_order, order_for,
  create_balance_order, if_ordered_as, result_of, settle_balance, verify_balance_payment,
}
use vybekart_backend.Replacements.Status.{
  stays, IsCovered, free, covered, Papers, IsSound, Legal, Outcome,
}
use vybekart_backend.Replacements.Status.Steps.{
  is_status, bought_by-row, update_replacement-Outcome,
}
use vybekart_backend.Replacements.Status.Buyer.{paid-Legal}

unpaid :
    (r : Replacement) (order : Uuid)
    → paid_with order r.razorpay_order_id ≡ true
    → is_paid r.balance_payment_status ≡ false
    → IsCovered r
    → ⊥
unpaid r order o p (free _ _ e) = let o = rw e at o in cc
unpaid r order o p (covered e) = let p = rw e at p in cc

-- A sound request that has an order with the gateway and is not paid awaits its payment.
awaits :
    (s : ReplacementStatus) (r : Replacement) (order : Uuid)
    → paid_with order r.razorpay_order_id ≡ true
    → is_paid r.balance_payment_status ≡ false
    → Papers s r
    → s ≡ awaiting_payment
awaits requested r order o p (_, e, _) = let o = rw e at o in cc
awaits pending_admin_review r order o p (_, e, _) = let o = rw e at o in cc
awaits awaiting_payment r order o p h = refl
awaits approved r order o p (h, _) = absurd (unpaid r order o p h)
awaits rejected r order o p (_, e, _) = let o = rw e at o in cc
awaits packed r order o p (h, _, _, _) = absurd (unpaid r order o p h)
awaits shipped r order o p (h, _, _) = absurd (unpaid r order o p h)
awaits delivered r order o p (h, _) = absurd (unpaid r order o p h)

pub ordered_as-row :
    (order : Uuid) (o : Option Replacement) (r : Replacement)
    → if_ordered_as order o ≡ some r
    → (o ≡ some r) × (paid_with order r.razorpay_order_id ≡ true)
ordered_as-row order none r h = cc
ordered_as-row order (some q) r h = elim (Bool-cases (paid_with order q.razorpay_order_id)) [
  | inl ours ↦ let h = rw ours at h in let same : q ≡ r = cc in (h, rw same at ours)
  | inr other ↦ let h = rw other at h in cc
]

with_order-Legal :
    (r : Replacement) (order : Uuid) → r.status ≡ awaiting_payment → Legal r (with_order order r)
with_order-Legal r order e sound = record {
  move = stays refl;
  sound = kept (subst (λ s. Papers s r) e sound);
  same_order = refl;
}
  where
    kept : Papers awaiting_payment r → IsSound (with_order order r)
    kept p = subst (λ s. Papers s (with_order order r)) (sym e) p

module _ (g : Gateway) (u k : Uuid) where
  order_for-Outcome :
      (w : World) (r : Replacement) (order : Option Uuid)
      → replacement_row k w ≡ some r
      → r.status ≡ awaiting_payment
      → Outcome k w (order_for g u k r order)
  unfolding order_for
  order_for-Outcome w r (some order) there e = nothing refl
  order_for-Outcome w r none there e =
      after (throw_if-Reads w (ltb r.balance_due 100) (bad_request "Minimum payable amount is ₹1"))
        λ _ _. after (required-Reads w (g.create_order r.balance_due) internal) λ order _.
          before
            (λ _. gets (λ v. v.now) >>= λ now.
              store_balance (record {
                razorpay_order_id = order;
                user_id = u;
                replacement_id = k;
                amount_paise = r.balance_due;
                expires = now + pending_ms;
              })
              >>= λ _. pure (balance_order order r))
            (λ _. still λ t. refl)
            (update_replacement-Outcome k (with_order order) w r there (with_order-Legal r order e)
              λ x. refl)

  pub create_balance_order-Outcome : (w : World) → Outcome k w (create_balance_order g u k)
  unfolding create_balance_order
  create_balance_order-Outcome w =
      after
        (throw_if-Reads w (not g.configured)
          (service_unavailable "Razorpay is not configured on the server"))
        λ _ _. after (require_read-Reads w (buyer_row u) (forbidden "Buyer not found")) λ b _.
          after
            (require_read-Reads w (λ v. if_bought_by b.id (replacement_row k v))
              (bad_request "Replacement not found"))
            λ r own.
              after
                (throw_if-Reads w (not (status_eq r.status awaiting_payment))
                  (bad_request "No balance payment is due"))
                λ _ h.
                  after
                    (throw_if-Reads w (leb r.balance_due 0)
                      (bad_request "No balance payment is due"))
                    λ _ _.
                      after
                        (throw_if-Reads w (is_paid r.balance_payment_status)
                          (bad_request "Balance already paid"))
                        λ _ _.
                          order_for-Outcome w r r.razorpay_order_id (bought_by-row b.id _ r own)
                            (is_status r awaiting_payment h)

  settle_balance-Outcome :
      (d : Payment) (w : World) (r : Replacement)
      → replacement_row k w ≡ some r
      → (IsSound r → r.status ≡ awaiting_payment)
      → Outcome k w (settle_balance u k d)
  unfolding settle_balance
  settle_balance-Outcome d w r there e =
      after
        (require_read-Reads w (pending_balance d.razorpay_order_id)
          (bad_request "Payment session expired. Please try again."))
        λ p _.
          after
            (throw_if-Reads w (not (p.user_id == u) || not (p.replacement_id == k))
              (forbidden "Payment does not belong to this user"))
            λ _ _.
              before (λ r. drop_balance d.razorpay_order_id >>= λ _. pure (result_of r))
                (λ _. still λ t. refl)
                (update_replacement-Outcome k (as_balance_paid d.razorpay_payment_id) w r there
                  (paid-Legal r d.razorpay_payment_id e) λ x. refl)

  pub verify_balance_payment-Outcome :
      (d : Payment) (w : World) → Outcome k w (verify_balance_payment g u k d)
  unfolding verify_balance_payment
  verify_balance_payment-Outcome d w =
      after
        (throw_if-Reads w (not g.configured)
          (service_unavailable "Razorpay is not configured on the server"))
        λ _ _.
          after
            (verify_signature-Reads g d.razorpay_order_id d.razorpay_payment_id d.razorpay_signature
              w)
            λ _ _. after (require_read-Reads w (buyer_row u) (forbidden "Buyer not found")) λ b _.
              after
                (require_read-Reads w
                  (λ v. if_ordered_as d.razorpay_order_id (if_bought_by b.id (replacement_row k v)))
                  (bad_request "Replacement payment not found"))
                λ r found_r.
                  let (own, ordered) = ordered_as-row d.razorpay_order_id _ r found_r in
                  TableOutcome-if (is_paid r.balance_payment_status)
                    (λ _. pure-TableOutcome (result_of r))
                    λ due.
                      settle_balance-Outcome d w r (bought_by-row b.id _ r own)
                        λ sound. awaits r.status r d.razorpay_order_id ordered due sound
