-- ===== src/Timelines/Offer.antt =====
-- The button for a replacement on the buyer's page, against the handler.
use vybekart_backend.Shared.{
  ◌≡◌, refl, sym, ap, ◌∙◌, true, false, not, Option, none, some, List, [], ◌∷◌, if◌then◌else◌,
  Bool-cases, inl, inr, ◌==◌,
}
use vybekart_backend.Shared.Lists.{find, filter, any}
use vybekart_backend.Shared.Action.{Action, Exception, ok, err, bad_request, not_found, ◌>>=◌}
use vybekart_backend.Shared.Reads.{
  Reads, failed, found, require_read-Reads, gets-Reads, throw_if-Reads, required-Reads,
}
use vybekart_backend.Json.{Conversions}
use vybekart_backend.Data.{World, Uuid, Time}
use vybekart_backend.Data.Orders.{Order, delivered}
use vybekart_backend.Data.Replacements.{Replacement}
use vybekart_backend.Orders.Lookup.{order_row, buyer_row, status_eq}
use vybekart_backend.Orders.Buyer.{is_owner}
use vybekart_backend.Orders.Status.Handlers.{not-false}
use vybekart_backend.Replacements.Request.{
  ReplacementInput, own_order, is_late, is_open_for, open_request, enter_request, create_for_order,
}
use vybekart_backend.Replacements.Status.Open.{refuse_second-Reads}
use vybekart_backend.Timelines.Orders.{
  requests_of, is_rejected, open_replacement, can_request_replacement,
}

-- An action that throws unless `Q` holds.
data OnlyIf {A : Type 0} (Q : Type 0) (w : World) (m : Action World A) : Type 0 where
  refused : (e : Exception) (t : World) → m w ≡ (err e, t) → OnlyIf Q w m
  allowed : Q → OnlyIf Q w m

OnlyIf-after :
    {A B Q : Type 0} {w : World} {P : A → Type 0} {m : Action World A} {f : A → Action World B}
    → Reads w P m
    → ((a : A) → P a → OnlyIf Q w (f a))
    → OnlyIf Q w (m >>= f)
OnlyIf-after {w} {f} (failed e h) go =
    refused e w (ap (λ r. elim r.0 [ ok a ↦ f a r.1 | err x ↦ (err x, r.1) ]) h)
OnlyIf-after {f} (found a p h) go =
    let run = ap (λ r. elim r.0 [ ok a ↦ f a r.1 | err x ↦ (err x, r.1) ]) h in
    elim (go a p) [ refused e t k ↦ refused e t (run ∙ k) | allowed q ↦ allowed q ]

allow : {A Q : Type 0} {w : World} (m : Action World A) → Q → OnlyIf Q w m
allow m q = allowed q

OnlyIf-ok :
    {A Q : Type 0} {w t : World} {m : Action World A} {a : A} → OnlyIf Q w m → m w ≡ (ok a, t) → Q
OnlyIf-ok (refused e u h) k = cc
OnlyIf-ok (allowed q) k = q

own_order-row :
    (k b : Uuid) (w : World) (o : Order) → own_order k b w ≡ some o → order_row k w ≡ some o
own_order-row k b w o h = by_row (order_row k w) h
  where
    by_row :
        (r : Option Order)
        → elim r as (λ _. Option Order) [
          | none ↦ none
          | some o ↦ if is_owner o.buyer_id b then some o else none
        ]
          ≡ some o
        → r ≡ some o
    by_row none h = cc
    by_row (some q) h = elim (Bool-cases (is_owner q.buyer_id b)) [
      | inl own ↦ rw own at h
      | inr other ↦ let h = rw other at h in cc
    ]

-- Where no request for the order is open, all of its requests are rejected.
all_rejected :
    (k : Uuid) (rs : List Replacement)
    → find (is_open_for k) rs ≡ none
    → (any (λ r. not (is_rejected r)) (filter (λ r. r.order_id == k) rs) ≡ false)
      × (open_replacement (filter (λ r. r.order_id == k) rs) ≡ none)
all_rejected k [] h = (refl, refl)
all_rejected k (r ∷ rs) h = elim (Bool-cases (r.order_id == k)) [
  | inr other ↦ rw other (all_rejected k rs (rw other at h))
  | inl ours ↦ elim (Bool-cases (is_rejected r)) [
    | inl gone ↦ let (a, b) = all_rejected k rs (rw (ours, gone) at h) in rw (ours, gone) (a, b)
    | inr open_one ↦ let h = rw (ours, open_one) at h in cc
  ]
]

offered :
    (o : Order) (k : Uuid) (w : World) (at : Time)
    → status_eq o.status delivered ≡ true
    → o.delivered_at ≡ some at
    → open_request k w ≡ none
    → can_request_replacement o (requests_of k w) ≡ true
unfolding can_request_replacement
offered o k w at s d e = let (a, b) = all_rejected k w.replacements e in rw (s, d, a, b) refl

create-OnlyIf :
    (js : Conversions) (u k : Uuid) (d : ReplacementInput) (w : World) (o : Order)
    → order_row k w ≡ some o
    → OnlyIf (can_request_replacement o (requests_of k w) ≡ true) w (create_for_order js u k d)
unfolding create_for_order
create-OnlyIf js u k d w o there =
    OnlyIf-after (require_read-Reads w (buyer_row u) (not_found "Buyer not found")) λ b _.
      OnlyIf-after (require_read-Reads w (own_order k b.id) (not_found "Order not found")) λ p own.
        OnlyIf-after
          (throw_if-Reads w (not (status_eq p.status delivered))
            (bad_request "Only delivered orders can be replaced"))
          λ _ arrived.
            OnlyIf-after
              (required-Reads w p.delivered_at (bad_request "Order delivery date missing"))
              λ at dated. OnlyIf-after (gets-Reads w (λ v. v.now)) λ now _.
                OnlyIf-after
                  (throw_if-Reads w (is_late now at) (
                    bad_request "Replacement requests must be submitted within 3 days of delivery"))
                  λ _ _. OnlyIf-after (gets-Reads w (open_request k)) λ existing e.
                    OnlyIf-after (refuse_second-Reads existing w) λ _ first.
                      let same : some p ≡ some o = sym (own_order-row k b.id w p own) ∙ there in
                      let same : p ≡ o = cc in
                      allow (enter_request js b.id p d now) (
                        offered o k w at (rw same at (not-false _ arrived)) (rw same at dated)
                          (sym e ∙ first))

-- When a request for a replacement of an order is accepted, the page of this order offered it: the
-- order was delivered, with a date, and every earlier request for it was rejected.
pub create_for_order-offered :
    (js : Conversions) (u k : Uuid) (d : ReplacementInput) (w t : World) (r : Replacement)
    (o : Order)
    → order_row k w ≡ some o
    → create_for_order js u k d w ≡ (ok r, t)
    → can_request_replacement o (requests_of k w) ≡ true
create_for_order-offered js u k d w t r o there = OnlyIf-ok (create-OnlyIf js u k d w o there)
