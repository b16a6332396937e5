-- ===== src/Replacements/Status/Track.antt =====
-- The poll of the carrier and the delivery, as steps of the request that they name.
use vybekart_backend.Shared.{
  ◌≡◌, refl, true, Option, none, some, is_some, ◌or◌, Bool-cases, inl, inr,
}
use mathlib.Core.Path.{subst}
use vybekart_backend.Shared.Text.{Text}
use vybekart_backend.Shared.Action.{not_found}
use vybekart_backend.Shared.Reads.{require_read-Reads, gets-Reads}
use vybekart_backend.Data.{World, Uuid, Time}
use vybekart_backend.Data.Replacements.{
  Replacement, ReplacementStatus, requested, pending_admin_review, awaiting_payment, approved,
  rejected, packed, shipped, delivered,
}
use vybekart_backend.Data.Writes.{nothing, after}
use vybekart_backend.Orders.Lookup.{seller_row}
use vybekart_backend.Orders.Carrier.{Carrier, is_delivered_status}
use vybekart_backend.Orders.Tracking.{tracked_by}
use vybekart_backend.Orders.Status.Steps.{find_seller-Reads}
use vybekart_backend.Replacements.Rules.{status_eq, replacement_row, if_sold_by}
use vybekart_backend.Replacements.Track.{
  polled, poll, delivery_status, as_delivered, if_shipped, deliver,
}
use vybekart_backend.Replacements.Status.{
  Edge, Moves, stays, goes, IsCovered, Papers, Legal, Outcome, status_eq-same,
}
use vybekart_backend.Replacements.Status.Steps.{
  sold_by-row, seller_replacement-Reads, update_replacement-Outcome,
}
use vybekart_backend.Replacements.Status.Seller.{IsCovered-same}

is_some-or : {A : Type 0} (o : Option A) (a : A) → is_some (o or some a) ≡ true
is_some-or none a = refl
is_some-or (some b) a = refl

-- What the carrier says is no part of the papers.
told-Papers :
    (s : ReplacementStatus) (r : Replacement) (d : Option Text)
    → Papers s r
    → Papers s (record r { delivery_status = d })
told-Papers requested r d h = h
told-Papers pending_admin_review r d h = h
told-Papers awaiting_payment r d h = h
told-Papers approved r d (p, h) = (IsCovered-same r _ refl refl refl p, h)
told-Papers rejected r d h = h
told-Papers packed r d (p, a, b, h) = (IsCovered-same r _ refl refl refl p, a, b, h)
told-Papers shipped r d (p, a, b) = (IsCovered-same r _ refl refl refl p, a, b)
told-Papers delivered r d (p, h) = (IsCovered-same r _ refl refl refl p, h)

-- A request that a carrier tracks is on its way or there, and paid for.
arrived :
    (s : ReplacementStatus) (r : Replacement) (t : Text)
    → tracked_by r.delivery_provider r.tracking_id ≡ some t
    → Papers s r
    → Moves s delivered × IsCovered r
arrived requested r t e (_, _, quiet) = cc
arrived pending_admin_review r t e (_, _, quiet) = cc
arrived awaiting_payment r t e (_, _, quiet) = cc
arrived approved r t e (_, quiet) = cc
arrived rejected r t e (_, _, quiet) = cc
arrived packed r t e (_, _, _, quiet) = cc
arrived shipped r t e (p, _, _) = (goes Edge.received, p)
arrived delivered r t e (p, _) = (stays refl, p)

polled-Legal :
    (now : Time) (status : Option Text) (r : Replacement) (t : Text)
    → tracked_by r.delivery_provider r.tracking_id ≡ some t
    → Legal r (polled now status r)
unfolding is_delivered_status
polled-Legal now status r t e sound = elim (Bool-cases (is_delivered_status status)) [
  | inl there ↦
      let (move, paid) = arrived r.status r t e sound in
      rw there (record {
        move = move;
        sound = (IsCovered-same r _ refl refl refl paid, is_some-or r.delivered_at now);
        same_order = refl;
      })
  | inr under_way ↦
      rw under_way
        (record { move = stays refl; sound = told-Papers r.status r _ sound; same_order = refl })
]

polled-id : (now : Time) (status : Option Text) (r : Replacement) → (polled now status r).id ≡ r.id
unfolding is_delivered_status
polled-id now status r = elim (Bool-cases (is_delivered_status status)) [
  | inl there ↦ rw there refl
  | inr under_way ↦ rw under_way refl
]

poll-Outcome :
    (c : Carrier) (k : Uuid) (r : Replacement) (t : Option Text) (w : World)
    → replacement_row k w ≡ some r
    → tracked_by r.delivery_provider r.tracking_id ≡ t
    → Outcome k w (poll c k r t)
unfolding poll
poll-Outcome c k r none w there e = nothing refl
poll-Outcome c k r (some t) w there e = after (gets-Reads w (λ v. v.now)) λ now _.
    update_replacement-Outcome k (polled now (c.track t or r.delivery_status)) w r there
      (polled-Legal now _ r t e) (polled-id now _)

pub delivery_status-Outcome :
    (c : Carrier) (k u : Uuid) (w : World) → Outcome k w (delivery_status c k u)
unfolding delivery_status
delivery_status-Outcome c k u w =
    after (find_seller-Reads u w)
      λ s _. after (seller_replacement-Reads k s w) λ r there. poll-Outcome c k r _ w there refl

if_shipped-row :
    (o : Option Replacement) (r : Replacement)
    → if_shipped o ≡ some r
    → (o ≡ some r) × (r.status ≡ shipped)
if_shipped-row none r h = cc
if_shipped-row (some q) r h = elim (Bool-cases (status_eq q.status shipped)) [
  | inl sent ↦
      let h = rw sent at h in
      let same : q ≡ r = cc in (h, rw same at (status_eq-same q.status shipped sent))
  | inr other ↦ let h = rw other at h in cc
]

delivered-Legal : (r : Replacement) (now : Time) → r.status ≡ shipped → Legal r (as_delivered now r)
delivered-Legal r now e sound =
    let (paid, _, _) = subst (λ s. Papers s r) e sound in
    record {
      move = goes (rw e Edge.received);
      sound = (IsCovered-same r _ refl refl refl paid, refl);
      same_order = refl;
    }

pub deliver-Outcome : (k u : Uuid) (w : World) → Outcome k w (deliver k u)
unfolding deliver
deliver-Outcome k u w =
    after (require_read-Reads w (seller_row u) (not_found "Seller not found")) λ s _.
      after
        (require_read-Reads w (λ v. if_shipped (if_sold_by s.id (replacement_row k v)))
          (not_found "Replacement not found"))
        λ r h. after (gets-Reads w (λ v. v.now)) λ now _.
          let (own, e) = if_shipped-row _ r h in
          update_replacement-Outcome k (as_delivered now) w r (sold_by-row s.id _ r own)
            (delivered-Legal r now e) λ x. refl
