-- ===== src/Payments/Balance/Again.antt =====
-- A balance payment that is verified once more.
use vybekart_backend.Shared.{
  ◌≡◌, refl, sym, ap, ◌∙◌, true, false, not, ◌||◌, Option, some, if◌then◌else◌, Bool-cases, inl,
  inr, ◌==◌, ==_refl,
}
use vybekart_backend.Shared.Text.{text_eq}
use vybekart_backend.Shared.Action.{
  Action, ok, bad_request, forbidden, service_unavailable, internal, gets, pure, required, ◌>>=◌,
  >>=-run,
}
use vybekart_backend.Shared.Reads.{
  Reads, failed, found, Reads-bind, require_read-Reads, throw_if-Reads,
}
use vybekart_backend.Shared.Ends.{Ends, thrown, ended, Ends-after, Ends-if}
use vybekart_backend.Data.{World, Uuid, Buyer}
use vybekart_backend.Data.Replacements.{Replacement}
use vybekart_backend.Data.Table.{row-update, update}
use vybekart_backend.Shared.Lists.{filter}
use vybekart_backend.Orders.Lookup.{buyer_row}
use vybekart_backend.Orders.Status.Handlers.{not-false}
use vybekart_backend.Replacements.Rules.{is_paid, replacement_row, if_bought_by, update_replacement}
use vybekart_backend.Replacements.Decide.{as_balance_paid}
use vybekart_backend.Replacements.Status.Steps.{bought_by-row}
use vybekart_backend.Replacements.Status.Balance.{ordered_as-row}
use vybekart_backend.Payments.Gateway.{Gateway, verify_signature}
use vybekart_backend.Payments.Verify.{Payment, paid_with}
use vybekart_backend.Payments.Balance.{
  pending_balance, other_balance, drop_balance, if_ordered_as, BalanceResult, result_of,
  settle_balance, verify_balance_payment,
}

module _ (g : Gateway) (u k : Uuid) (d : Payment) where
  -- The row that the verification finds.
  abbrev named_row : Uuid → World → Option Replacement
  named_row b w = if_ordered_as d.razorpay_order_id (if_bought_by b (replacement_row k w))

  -- The request that the payment names is paid.
  record IsPaidFor (b : BalanceResult) (t : World) : Type 0 where
    buyer : Buyer
    has_buyer : buyer_row u t ≡ some buyer
    request : Replacement
    has_request : named_row buyer.id t ≡ some request
    settled_it : is_paid request.balance_payment_status ≡ true
    result : result_of request ≡ b

  abbrev IsSigned : Type 0
  IsSigned =
      (g.has_secret ≡ true)
      × (text_eq (g.signed d.razorpay_order_id d.razorpay_payment_id) d.razorpay_signature ≡ true)

  again :
      (b : BalanceResult) (t : World)
      → g.configured ≡ true
      → IsSigned
      → IsPaidFor b t
      → verify_balance_payment g u k d t ≡ (ok b, t)
  unfolding verify_balance_payment verify_signature
  again b t c (s, q) p = rw (c, s, q, p.has_buyer, p.has_request, p.settled_it, p.result) refl

  paid-row :
      (b : Uuid) (r r' : Replacement)
      → if_ordered_as d.razorpay_order_id (if_bought_by b (some r)) ≡ some r'
      → if_ordered_as d.razorpay_order_id
          (if_bought_by b (some (as_balance_paid d.razorpay_payment_id r)))
        ≡ some (as_balance_paid d.razorpay_payment_id r)
  paid-row b r r' h = elim (Bool-cases (r.buyer_id == b)) [
    | inr other ↦ let h = rw other at h in cc
    | inl own ↦
        let h = rw own at h in
        elim (Bool-cases (paid_with d.razorpay_order_id r.razorpay_order_id)) [
          | inl ours ↦ rw (own, ours) refl
          | inr theirs ↦ let h = rw theirs at h in cc
        ]
  ]

  signature-Reads :
      (w : World)
      → Reads w
          (λ _. IsSigned)
          (verify_signature g d.razorpay_order_id d.razorpay_payment_id d.razorpay_signature)
  unfolding verify_signature
  signature-Reads w =
      Reads-bind
        (throw_if-Reads w (not g.has_secret) (service_unavailable "Payments not configured"))
        λ _ s. signed (not-false _ s) (
          throw_if-Reads w
            (not
              (text_eq (g.signed d.razorpay_order_id d.razorpay_payment_id) d.razorpay_signature))
            (bad_request "Invalid payment signature"))
    where
      signed :
          {m : Action World (Unit {0})}
          → g.has_secret ≡ true
          → Reads w
              (λ _.
                not (
                  text_eq (g.signed d.razorpay_order_id d.razorpay_payment_id) d.razorpay_signature)
                ≡ false)
              m
          → Reads w (λ _. IsSigned) m
      signed s (failed e h) = failed e h
      signed s (found a q h) = found a (s, not-false _ q) h

  paid : Replacement → Replacement
  paid = as_balance_paid d.razorpay_payment_id

  after_update : World → World
  after_update w = record w { replacements = update (λ r. r.id) k paid w.replacements }

  after_drop : World → World
  after_drop w = record (after_update w) {
    balances = filter (other_balance d.razorpay_order_id) w.balances;
  }

  updated_row :
      (w : World) (r : Replacement)
      → replacement_row k w ≡ some r
      → replacement_row k (after_update w) ≡ some (paid r)
  unfolding after_update paid
  updated_row w r there =
      row-update (λ (x : Replacement). x.id) paid (λ x. refl) k k w.replacements
      ∙ rw (==_refl k, there) refl

  update-run :
      (w : World) (r : Replacement)
      → replacement_row k w ≡ some r
      → update_replacement k paid w ≡ (ok (paid r), after_update w)
  unfolding update_replacement after_update paid
  update-run w r there = ap (λ o. required o internal (after_update w)) (updated_row w r there)

  settle_run :
      (w : World) (r : Replacement)
      → replacement_row k w ≡ some r
      → (update_replacement k paid >>= λ r.
            drop_balance d.razorpay_order_id >>= λ _. pure (result_of r))
          w
        ≡ (ok (result_of (paid r)), after_drop w)
  unfolding after_drop after_update
  settle_run w r there =
      >>=-run (update_replacement k paid)
        (λ r. drop_balance d.razorpay_order_id >>= λ _. pure (result_of r)) w (paid r)
        (after_update w) (update-run w r there)

  settled-Ends :
      (w : World) (b : Buyer) (r : Replacement)
      → buyer_row u w ≡ some b
      → named_row b.id w ≡ some r
      → Ends IsPaidFor w (
          update_replacement k paid >>= λ r.
          drop_balance d.razorpay_order_id >>= λ _. pure (result_of r))
  unfolding paid after_drop after_update
  settled-Ends w b r has_b has_r =
      let there = bought_by-row b.id _ r (ordered_as-row d.razorpay_order_id _ r has_r).0 in
      ended (result_of (paid r)) (after_drop w) (settle_run w r there) (record {
        buyer = b;
        has_buyer = has_b;
        request = paid r;
        has_request =
            ap (λ o. if_ordered_as d.razorpay_order_id (if_bought_by b.id o))
              (updated_row w r there)
            ∙ paid-row b.id r r (
                ap (λ o. if_ordered_as d.razorpay_order_id (if_bought_by b.id o)) (sym there)
                ∙ has_r);
        settled_it = refl;
        result = refl;
      })

  settle-Ends :
      (w : World) (b : Buyer) (r : Replacement)
      → buyer_row u w ≡ some b
      → named_row b.id w ≡ some r
      → Ends IsPaidFor w (settle_balance u k d)
  unfolding settle_balance paid
  settle-Ends w b r has_b has_r =
      Ends-after
        (require_read-Reads w (pending_balance d.razorpay_order_id)
          (bad_request "Payment session expired. Please try again."))
        λ p _.
          Ends-after
            (throw_if-Reads w (not (p.user_id == u) || not (p.replacement_id == k))
              (forbidden "Payment does not belong to this user"))
            λ _ _. settled-Ends w b r has_b has_r

  paid-Ends :
      (w : World) (b : Buyer) (r : Replacement)
      → buyer_row u w ≡ some b
      → named_row b.id w ≡ some r
      → is_paid r.balance_payment_status ≡ true
      → Ends IsPaidFor w (pure (result_of r))
  paid-Ends w b r has_b has_r done = ended (result_of r) w refl (record {
    buyer = b;
    has_buyer = has_b;
    request = r;
    has_request = has_r;
    settled_it = done;
    result = refl;
  })

  row-Ends :
      (w : World)
      → Ends IsPaidFor w (
          (gets (buyer_row u) >>= λ o. required o (forbidden "Buyer not found")) >>= λ b.
          (gets (named_row b.id) >>= λ o. required o (bad_request "Replacement payment not found"))
          >>= λ r.
              if is_paid r.balance_payment_status then pure (result_of r) else settle_balance u k d)
  row-Ends w =
      Ends-after (require_read-Reads w (buyer_row u) (forbidden "Buyer not found")) λ b has_b.
        Ends-after
          (require_read-Reads w (named_row b.id) (bad_request "Replacement payment not found"))
          λ r has_r.
            Ends-if (is_paid r.balance_payment_status) (paid-Ends w b r has_b has_r)
              λ _. settle-Ends w b r has_b has_r

  -- The end of the verification, together with what it has checked.
  EndsWell : BalanceResult → World → Type 0
  EndsWell b t = (g.configured ≡ true) × IsSigned × IsPaidFor b t

  with_checks :
      {m : Action World BalanceResult} (w : World)
      → g.configured ≡ true
      → IsSigned
      → Ends IsPaidFor w m
      → Ends EndsWell w m
  unfolding EndsWell
  with_checks w c s (thrown e t h) = thrown e t h
  with_checks w c s (ended b t h p) = ended b t h (c, s, p)

  verify-Ends : (w : World) → Ends EndsWell w (verify_balance_payment g u k d)
  unfolding verify_balance_payment
  verify-Ends w =
      Ends-after
        (throw_if-Reads w (not g.configured)
          (service_unavailable "Razorpay is not configured on the server"))
        λ _ c. Ends-after (signature-Reads w) λ _ s. with_checks w (not-false _ c) s (row-Ends w)

  -- When the verification of a balance payment returns, the same verification once more returns the
  -- same, and changes nothing.
  pub verify_balance-again :
      (w t : World) (b : BalanceResult)
      → verify_balance_payment g u k d w ≡ (ok b, t)
      → verify_balance_payment g u k d t ≡ (ok b, t)
  unfolding EndsWell
  verify_balance-again w t b h = elim (verify-Ends w) [
    | thrown e v i ↦ cc
    | ended c v i (conf, signed, p) ↦
        let ends : ok c ≡ ok b = ap (λ r. r.0) (sym i ∙ h) in
        let same : c ≡ b = cc in
        let place : v ≡ t = ap (λ r. r.1) (sym i ∙ h) in
        rw (same, place) at (again c v conf signed p)
  ]
