-- ===== src/Replacements/Status/Open.antt =====
-- `createForOrder`, as an entry in the table of requests.
use vybekart_backend.Shared.{
  ◌≡◌, refl, ap, sym, ◌∙◌, Bool, true, false, Option, none, some, List, ◌∷◌, not, Bool-cases, inl,
  inr, if◌then◌else◌, ◌==◌,
}
use mathlib.Core.Path.{subst}
use vybekart_backend.Shared.Int.{pos, ltb_ℤ}
use vybekart_backend.Shared.Lists.{find}
use vybekart_backend.Shared.Action.{
  Action, Result, ok, err, bad_request, not_found, pure, of_result, ◌>>=◌,
}
use vybekart_backend.Shared.Reads.{
  Reads, failed, found, require_read-Reads, gets-Reads, throw_if-Reads, required-Reads,
}
use vybekart_backend.Json.{Conversions}
use vybekart_backend.Data.{World, Uuid, Time}
use vybekart_backend.Data.Orders.{Order, OrderItem, OrderStatus}
use vybekart_backend.Data.Replacements.{Replacement}
use vybekart_backend.Data.Table.{row-key}
use vybekart_backend.Data.Writes.{StillOn-run, StillOn-bind, pure-StillOn}
use vybekart_backend.Orders.Lookup.{order_row, product_row, buyer_row}
use vybekart_backend.Orders.Lookup
use vybekart_backend.Orders.Buyer.{is_owner}
use vybekart_backend.Ratings.Seller.{on_replacement_requested}
use vybekart_backend.Ratings.Effects.{get_buyer_score-StillOn, on_replacement_requested-StillOn}
use vybekart_backend.Replacements.Rules.{Pricing, compute_pricing}
use vybekart_backend.Replacements.Request.{
  auto_approve_min_score, ReplacementInput, own_order, is_late, is_open_for, open_request,
  refuse_second, not_replaceable, new_replacement, enter_replacement, enter_request,
  create_for_order,
}
use vybekart_backend.Replacements.Status.{IsSound}
use vybekart_backend.Replacements.Status.Steps.{Still}
use vybekart_backend.Replacements.Status.Buyer.{approval-IsSound}

-- The table before and after: as it was, or with a new sound request for an order without an open
-- one.
pub data Entry (k : Uuid) (xs ys : List Replacement) : Type 0 where
  unchanged : ys ≡ xs → Entry k xs ys
  entered :
      (r : Replacement)
      → r.order_id ≡ k
      → find (is_open_for k) xs ≡ none
      → IsSound r
      → ys ≡ r ∷ xs
      → Entry k xs ys

pub record Enters {A : Type 0} (k : Uuid) (w : World) (m : Action World A) : Type 0 where
  pub entry : Entry k w.replacements (m w).1.replacements

Enters-after :
    {A B : Type 0} {k : Uuid} {w : World} {P : A → Type 0} {m : Action World A}
    {f : A → Action World B}
    → Reads w P m
    → ((a : A) → P a → Enters k w (f a))
    → Enters k w (m >>= f)
Enters-after {B} {f} (failed e h) go = record {
  entry = unchanged (
      ap (λ (r : Result B × World). r.1.replacements)
        (ap (λ r. elim r.0 [ ok a ↦ f a r.1 | err x ↦ (err x, r.1) ]) h));
}
Enters-after {B} {k} {w} {f} (found a p h) go = record {
  entry =
      rw
        (ap (λ (r : Result B × World). r.1.replacements)
          (ap (λ r. elim r.0 [ ok a ↦ f a r.1 | err x ↦ (err x, r.1) ]) h))
        (go a p).entry;
}

-- After an action that leaves the requests alone.
Enters-Still :
    {A B : Type 0} {k : Uuid} (w : World) {m : Action World A} {f : A → Action World B}
    → Still m
    → ((a : A) (t : World) → t.replacements ≡ w.replacements → Enters {A = B} k t (f a))
    → Enters k w (m >>= f)
Enters-Still {A} {B} {k} w {m} {f} quiet go = record {
  entry = by_run (m w).0 (m w).1 (StillOn-run quiet w);
}
  where
    by_run :
        (r : Result A) (t : World)
        → t.replacements ≡ w.replacements
        → Entry k w.replacements
            (elim r as (λ _. Result B × World) [ ok a ↦ f a t | err x ↦ (err x, t) ]).1.replacements
    by_run (err x) t q = unchanged q
    by_run (ok a) t q = subst (λ xs. Entry k xs (f a t).1.replacements) q (go a t q).entry

enter_replacement-Enters :
    (k : Uuid) (w : World) (r : Replacement)
    → r.order_id ≡ k
    → open_request k w ≡ none
    → IsSound r
    → Enters k w (enter_replacement r)
unfolding enter_replacement
enter_replacement-Enters k w r e first sound = record {
  entry = entered r e first sound (StillOn-run rest _);
}
  where
    rest : Still (on_replacement_requested r.buyer_id r.seller_id >>= λ _. pure r)
    rest =
        StillOn-bind
          (on_replacement_requested-StillOn (λ v. v.replacements) (λ v rs. refl) (λ v rs. refl)
            r.buyer_id r.seller_id)
          λ _. pure-StillOn r

pub refuse_second-Reads :
    (o : Option Replacement) (w : World) → Reads w (λ _. o ≡ none) (refuse_second o)
refuse_second-Reads none w = found tt refl refl
refuse_second-Reads (some r) w = failed _ refl

of_result-Reads : {A : Type 0} (r : Result A) (w : World) → Reads w (λ a. r ≡ ok a) (of_result r)
of_result-Reads (ok a) w = found a refl refl
of_result-Reads (err e) w = failed e refl

own_order-key : (k b : Uuid) (w : World) (o : Order) → own_order k b w ≡ some o → o.id ≡ k
own_order-key k b w o h = by_row (order_row k w) refl h
  where
    by_row :
        (r : Option Order)
        → order_row k w ≡ r
        → elim r as (λ _. Option Order) [
          | none ↦ none
          | some o ↦ if is_owner o.buyer_id b then some o else none
        ]
          ≡ some o
        → o.id ≡ k
    by_row none there h = cc
    by_row (some q) there h = elim (Bool-cases (is_owner q.buyer_id b)) [
      | inl own ↦
          let h = rw own at h in
          let same : q ≡ o = cc in row-key (λ (x : Order). x.id) k w.orders o (there ∙ h)
      | inr other ↦ let h = rw other at h in cc
    ]

new_replacement-IsSound :
    (id buyer seller : Uuid) (o : Order) (i : OrderItem) (d : ReplacementInput) (p : Pricing)
    (auto : Bool) (now : Time)
    → IsSound (new_replacement id buyer seller o i d p auto now)
new_replacement-IsSound id buyer seller o i d p true now =
    approval-IsSound (new_replacement id buyer seller o i d p true now) p.balance_due refl refl refl
      refl refl
new_replacement-IsSound id buyer seller o i d p false now = (refl, refl, refl)

enter_request-Enters :
    (js : Conversions) (b k : Uuid) (o : Order) (d : ReplacementInput) (now : Time) (w : World)
    → open_request k w ≡ none
    → o.id ≡ k
    → Enters k w (enter_request js b o d now)
unfolding enter_request
enter_request-Enters js b k o d now w first e =
    Enters-after
      (required-Reads w (find (λ x. x.id == d.order_item_id) o.items)
        (bad_request "Order line not found"))
      λ i _.
        Enters-after
          (require_read-Reads w (product_row i.product_id) (bad_request "Order line not found"))
          λ p _.
            Enters-after
              (throw_if-Reads w (not_replaceable p.returnable)
                (bad_request "This product is not replaceable"))
              λ _ _.
                Enters-after (of_result-Reads (compute_pricing js i p d.replacement_variant_id) w)
                  λ pricing _.
                    Enters-Still w (get_buyer_score-StillOn (λ v. v.replacements) (λ v rs. refl) b)
                      λ score t q. Enters-after (gets-Reads t (λ v. v.fresh)) λ id _.
                        enter_replacement-Enters k t
                          (new_replacement id b p.seller_id o i d pricing
                            (not (ltb_ℤ score (pos auto_approve_min_score))) now)
                          e (ap (find (is_open_for k)) q ∙ first)
                          (new_replacement-IsSound id b p.seller_id o i d pricing
                            (not (ltb_ℤ score (pos auto_approve_min_score))) now)

pub create_for_order-Enters :
    (js : Conversions) (u k : Uuid) (d : ReplacementInput) (w : World)
    → Enters k w (create_for_order js u k d)
unfolding create_for_order
create_for_order-Enters js u k d w =
    Enters-after (require_read-Reads w (buyer_row u) (not_found "Buyer not found")) λ b _.
      Enters-after (require_read-Reads w (own_order k b.id) (not_found "Order not found")) λ o own.
        Enters-after
          (throw_if-Reads w (not (Lookup.status_eq o.status OrderStatus.delivered))
            (bad_request "Only delivered orders can be replaced"))
          λ _ _.
            Enters-after
              (required-Reads w o.delivered_at (bad_request "Order delivery date missing"))
              λ at _. Enters-after (gets-Reads w (λ v. v.now)) λ now _.
                Enters-after
                  (throw_if-Reads w (is_late now at) (
                    bad_request "Replacement requests must be submitted within 3 days of delivery"))
                  λ _ _. Enters-after (gets-Reads w (open_request k)) λ existing e.
                    Enters-after (refuse_second-Reads existing w) λ _ first.
                      enter_request-Enters js b.id k o d now w (sym e ∙ first)
                        (own_order-key k b.id w o own)
