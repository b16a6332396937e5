-- ===== src/Timelines/Replacements.antt =====
-- `buildReplacementTimeline` and the next actions of buyer and seller.
use vybekart_backend.Shared.{
  Bool, true, false, not, ◌&&◌, ◌||◌, none, some, List, [], ◌∷◌, is_some, leb, ltb, if◌then◌else◌,
}
use vybekart_backend.Shared.Text.{codes}
use vybekart_backend.Data.Replacements.{
  Replacement, ReplacementStatus, requested, pending_admin_review, awaiting_payment, approved,
  rejected, packed, shipped, delivered,
}
use vybekart_backend.Orders.Tracking.{is_delhivery}
use vybekart_backend.Replacements.Rules.{status_eq, is_paid}
use vybekart_backend.Timelines.{done, active, Stage, Step, shown, is_text, stage, mark_index}

abbrev pub is_handed_over : ReplacementStatus → Bool
is_handed_over s = status_eq s shipped || status_eq s delivered

abbrev pub is_packed : ReplacementStatus → Bool
is_packed s = status_eq s packed || is_handed_over s

abbrev pub goes_ahead : ReplacementStatus → Bool
goes_ahead s = status_eq s approved || is_packed s

-- `paidBalance`
abbrev pub paid_balance : Replacement → Bool
paid_balance r =
    leb r.balance_due 0
    || is_paid r.balance_payment_status
    || not (status_eq r.status awaiting_payment)

abbrev pub payment_stage : Replacement → Stage
payment_stage r =
    stage (codes "payment") (codes "Balance payment") (paid_balance r)
      (if paid_balance r then r.decided_at else none)

abbrev pub submitted_stage : Replacement → Stage
submitted_stage r = stage (codes "submitted") (codes "Request submitted") true (some r.created_at)

abbrev pub review_stage : Replacement → Stage
review_stage r =
    stage (codes "review") (codes "Under review")
      (not (status_eq r.status requested) && not (status_eq r.status pending_admin_review))
      r.decided_at

abbrev pub later_stages : Replacement → List Stage
later_stages r =
    stage (codes "approved") (codes "Approved") (goes_ahead r.status) r.decided_at
    ∷ stage (codes "packed") (codes "Packed")
        (is_text r.packing_video_url || is_some r.packed_at || is_packed r.status) r.packed_at
    ∷ stage (codes "shipped") (codes "Shipped") (is_handed_over r.status || is_text r.tracking_id)
        r.shipped_at
    ∷ stage (codes "delivered") (codes "Delivered") (status_eq r.status delivered) r.delivered_at
    ∷ []

abbrev pub replacement_stages : Replacement → List Stage
replacement_stages r =
    submitted_stage r
    ∷ review_stage r
    ∷ (if ltb 0 r.balance_due then payment_stage r ∷ later_stages r else later_stages r)

abbrev pub rejected_timeline : Replacement → List Step
rejected_timeline r =
    shown done (submitted_stage r)
    ∷ shown active (review_stage r)
    ∷ shown active (stage (codes "rejected") (codes "Rejected") false r.decided_at)
    ∷ []

unfoldable pub replacement_timeline : Replacement → List Step
unfolding mark_index
replacement_timeline r =
    if status_eq r.status rejected then rejected_timeline r else mark_index (replacement_stages r)

pub data NextAction : Type 0 where
  pay_balance pack_video request_delivery track no_action : NextAction

-- `no_action` stands for `null`.
unfoldable pub buyer_next_action : Replacement → NextAction
buyer_next_action r =
    if status_eq r.status awaiting_payment
      && ltb 0 r.balance_due
      && not (is_paid r.balance_payment_status)
    then pay_balance
    else no_action

unfoldable pub seller_next_action : Replacement → NextAction
seller_next_action r =
    if status_eq r.status awaiting_payment && not (is_paid r.balance_payment_status)
    then no_action
    else if status_eq r.status approved && not (is_text r.packing_video_url)
    then pack_video
    else if status_eq r.status packed && not (is_text r.tracking_id)
    then request_delivery
    else if (status_eq r.status shipped || status_eq r.status packed)
        && is_text r.tracking_id
        && is_delhivery r.delivery_provider
    then track
    else no_action
