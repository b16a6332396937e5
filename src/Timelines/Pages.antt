-- ===== src/Timelines/Pages.antt =====
-- What the pages show, against the state that the handlers keep.
use vybekart_backend.Shared.{
  ◌≡◌, refl, Bool, true, false, not, ◌&&◌, ◌||◌, List, [], ◌∷◌, map, ◌⊎◌, is_some, leb, ltb,
  Bool-cases, inl, inr,
}
use mathlib.Core.Path.{subst}
use vybekart_backend.Data.{Time}
use vybekart_backend.Data.Orders.{
  Order, OrderStatus, pending, paid, packed, shipped, delivered, cancelled, returned,
}
use vybekart_backend.Data.Replacements.{Replacement, ReplacementStatus}
use vybekart_backend.Orders.Lookup.{status_eq}
use vybekart_backend.Replacements.Rules
use vybekart_backend.Replacements.Status.{Papers, IsSound}
use vybekart_backend.Timelines.{
  done, active, upcoming, Stage, Step, is_text, mark_first, mark_index, mark_first-mark_index,
}
use vybekart_backend.Timelines.Orders.{
  is_handed_over, seller_stages, seller_timeline, buyer_stages, buyer_timeline,
}
use vybekart_backend.Timelines.Replacements.{
  replacement_stages, later_stages, goes_ahead, replacement_timeline,
}
use vybekart_backend.Timelines.Shape.{IsAscending, ReadsOn, is_past, is_now, mark_first-ReadsOn}

-- An order that is not returned: no video while it waits to be packed, no parcel before it is
-- shipped.
pub record IsRegular (o : Order) : Type 0 where
  pub here : o.status ≡ returned → ⊥
  pub video :
      (status_eq o.status pending || status_eq o.status paid) ≡ true
      → is_text o.packing_video_url ≡ false
  pub parcel : is_handed_over o.status ≡ false → is_text o.tracking_id ≡ false

-- An order that was packed and then cancelled.
abbrev pub is_withdrawn : Order → Bool
is_withdrawn o = status_eq o.status cancelled && is_text o.packing_video_url

-- What the seller sees of such an order: "Order received" as the active step, before "Record packing
-- video" as a step that is done.
abbrev pub ReadsAsWithdrawn : List Step → Type 0
ReadsAsWithdrawn ss =
    map (λ (s : Step). s.state) ss ≡ active ∷ done ∷ upcoming ∷ upcoming ∷ upcoming ∷ upcoming ∷ []

or_true : (b : Bool) → (b || true) ≡ true
or_true true = refl
or_true false = refl

or_or_true : (a b : Bool) → (a || b || true) ≡ true
or_or_true true b = refl
or_or_true false b = or_true b

seller-IsAscending :
    (created : Time) (o : Order)
    → IsRegular o
    → is_withdrawn o ≡ false
    → IsAscending (seller_stages created o)
seller-IsAscending created o h kept = by_status o.status h.here h.video h.parcel kept
  where
    by_status :
        (s : OrderStatus)
        → (s ≡ returned → ⊥)
        → ((status_eq s pending || status_eq s paid) ≡ true → is_text o.packing_video_url ≡ false)
        → (is_handed_over s ≡ false → is_text o.tracking_id ≡ false)
        → is_withdrawn (record o { status = s }) ≡ false
        → IsAscending (seller_stages created (record o { status = s }))
    by_status pending a b c k = (rw (b refl) refl, (refl, (rw (c refl) refl, (refl, (refl, tt)))))
    by_status paid a b c k = rw (b refl) (refl, (rw (c refl) refl, (refl, (refl, tt))))
    by_status packed a b c k = rw (or_true (is_text o.packing_video_url), c refl) (refl, (refl, tt))
    by_status shipped a b c k =
        rw (or_true (is_text o.packing_video_url), or_true (is_text o.tracking_id)) tt
    by_status delivered a b c k =
        rw (or_true (is_text o.packing_video_url), or_true (is_text o.tracking_id)) tt
    by_status cancelled a b c k = (rw k refl, (refl, (rw (c refl) refl, (refl, (refl, tt)))))
    by_status returned a b c k = absurd (a refl)

withdrawn-ReadsAsWithdrawn :
    (created : Time) (o : Order)
    → IsRegular o
    → is_withdrawn o ≡ true
    → ReadsAsWithdrawn (seller_timeline created o)
unfolding seller_timeline
withdrawn-ReadsAsWithdrawn created o h w = by_status o.status h.parcel w
  where
    by_status :
        (s : OrderStatus)
        → (is_handed_over s ≡ false → is_text o.tracking_id ≡ false)
        → is_withdrawn (record o { status = s }) ≡ true
        → ReadsAsWithdrawn (mark_first false (seller_stages created (record o { status = s })))
    by_status pending c k = cc
    by_status paid c k = cc
    by_status packed c k = cc
    by_status shipped c k = cc
    by_status delivered c k = cc
    by_status returned c k = cc
    by_status cancelled c k = rw (k, c refl) refl

buyer-ReadsOn : (created : Time) (o : Order) → IsRegular o → ReadsOn (buyer_timeline created o)
unfolding buyer_timeline
buyer-ReadsOn created o h = by_status o.status h.here h.parcel
  where
    marked : (ss : List Stage) → IsAscending ss → ReadsOn (mark_index ss)
    marked ss a = subst ReadsOn (mark_first-mark_index ss) (mark_first-ReadsOn ss a)

    by_status :
        (s : OrderStatus)
        → (s ≡ returned → ⊥)
        → (is_handed_over s ≡ false → is_text o.tracking_id ≡ false)
        → ReadsOn (buyer_timeline created (record o { status = s }))
    by_status pending a c =
        marked (buyer_stages created (record o { status = pending }))
          (refl, (refl, (c refl, (refl, tt))))
    by_status paid a c =
        marked (buyer_stages created (record o { status = paid })) (c refl, (refl, tt))
    by_status packed a c =
        marked (buyer_stages created (record o { status = packed })) (rw (c refl) (refl, tt))
    by_status shipped a c = marked (buyer_stages created (record o { status = shipped })) tt
    by_status delivered a c = marked (buyer_stages created (record o { status = delivered })) tt
    by_status cancelled a c = is_past _ _ refl (is_now _ _ refl tt)
    by_status returned a c = absurd (a refl)

-- For an order that is not returned, that has no packing video while it is PENDING or PAID and no
-- tracking id unless it is SHIPPED or DELIVERED, the buyer's timeline reads from left to right: steps
-- that are done, then at most one that is active, then steps to come. So does the seller's, unless
-- the order is cancelled and has a packing video: then its first step is active, the second done, and
-- the other four are to come.
pub order_timelines-ReadsOn :
    (created : Time) (o : Order)
    → IsRegular o
    → ReadsOn (buyer_timeline created o)
      × ((is_withdrawn o ≡ false) × ReadsOn (seller_timeline created o)
          ⊎ (is_withdrawn o ≡ true) × ReadsAsWithdrawn (seller_timeline created o))
unfolding seller_timeline
order_timelines-ReadsOn created o h = (
  buyer-ReadsOn created o h,
  elim (Bool-cases (is_withdrawn o)) [
    | inl called_off ↦ inr (called_off, withdrawn-ReadsAsWithdrawn created o h called_off)
    | inr kept ↦
        inl
          (kept, mark_first-ReadsOn (seller_stages created o) (seller-IsAscending created o h kept))
  ],
)

-- A sound request that is approved or further on has no balance to wait for, and no parcel before
-- it is shipped.
later-IsAscending :
    (s : ReplacementStatus) (r : Replacement)
    → Papers s r
    → goes_ahead s ≡ true
    → IsAscending (later_stages (record r { status = s }))
later-IsAscending ReplacementStatus.requested r h e = cc
later-IsAscending ReplacementStatus.pending_admin_review r h e = cc
later-IsAscending ReplacementStatus.awaiting_payment r h e = cc
later-IsAscending ReplacementStatus.rejected r h e = cc
later-IsAscending ReplacementStatus.approved r (p, q) e =
    elim (Bool-cases (is_text r.packing_video_url || is_some r.packed_at || false)) [
      | inl filmed ↦ rw (filmed, q) (refl, tt)
      | inr not_yet ↦ rw (not_yet, q) (refl, (refl, tt))
    ]
later-IsAscending ReplacementStatus.packed r (p, a, b, q) e =
    rw (or_or_true (is_text r.packing_video_url) (is_some r.packed_at), q) (refl, tt)
later-IsAscending ReplacementStatus.shipped r h e =
    rw (or_or_true (is_text r.packing_video_url) (is_some r.packed_at)) tt
later-IsAscending ReplacementStatus.delivered r h e =
    rw (or_or_true (is_text r.packing_video_url) (is_some r.packed_at)) tt

ahead-IsAscending :
    (r : Replacement)
    → goes_ahead r.status ≡ true
    → (not (Rules.status_eq r.status ReplacementStatus.requested)
        && not (Rules.status_eq r.status ReplacementStatus.pending_admin_review))
      ≡ true
    → not (Rules.status_eq r.status ReplacementStatus.awaiting_payment) ≡ true
    → IsAscending (later_stages r)
    → IsAscending (replacement_stages r)
ahead-IsAscending r e reviewed settled_by a = rw reviewed (elim (Bool-cases (ltb 0 r.balance_due)) [
  | inl dear ↦
      rw
        (
          dear,
          settled_by,
          or_or_true (leb r.balance_due 0) (Rules.is_paid r.balance_payment_status),
        )
        a
  | inr plain ↦ rw plain a
])

ahead-ReadsOn :
    (r : Replacement)
    → Rules.status_eq r.status ReplacementStatus.rejected ≡ false
    → IsAscending (replacement_stages r)
    → ReadsOn (replacement_timeline r)
unfolding replacement_timeline
ahead-ReadsOn r e a = rw e (
    subst ReadsOn (mark_first-mark_index (replacement_stages r))
      (mark_first-ReadsOn (replacement_stages r) a))

-- The timeline of a sound replacement request that is approved or further on reads from left to
-- right.
pub replacement_timeline-ReadsOn :
    (r : Replacement) → IsSound r → goes_ahead r.status ≡ true → ReadsOn (replacement_timeline r)
replacement_timeline-ReadsOn r h e = by_status r.status h e
  where
    by_status :
        (s : ReplacementStatus)
        → Papers s r
        → goes_ahead s ≡ true
        → ReadsOn (replacement_timeline (record r { status = s }))
    by_status ReplacementStatus.requested p e = cc
    by_status ReplacementStatus.pending_admin_review p e = cc
    by_status ReplacementStatus.awaiting_payment p e = cc
    by_status ReplacementStatus.rejected p e = cc
    by_status ReplacementStatus.approved p e =
        ahead-ReadsOn (record r { status = ReplacementStatus.approved }) refl
          (ahead-IsAscending (record r { status = ReplacementStatus.approved }) refl refl refl
            (later-IsAscending ReplacementStatus.approved r p refl))
    by_status ReplacementStatus.packed p e =
        ahead-ReadsOn (record r { status = ReplacementStatus.packed }) refl
          (ahead-IsAscending (record r { status = ReplacementStatus.packed }) refl refl refl
            (later-IsAscending ReplacementStatus.packed r p refl))
    by_status ReplacementStatus.shipped p e =
        ahead-ReadsOn (record r { status = ReplacementStatus.shipped }) refl
          (ahead-IsAscending (record r { status = ReplacementStatus.shipped }) refl refl refl
            (later-IsAscending ReplacementStatus.shipped r p refl))
    by_status ReplacementStatus.delivered p e =
        ahead-ReadsOn (record r { status = ReplacementStatus.delivered }) refl
          (ahead-IsAscending (record r { status = ReplacementStatus.delivered }) refl refl refl
            (later-IsAscending ReplacementStatus.delivered r p refl))
