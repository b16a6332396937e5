-- ===== src/Replacements/Status.antt =====
-- The life of a replacement request: the status changes that the handlers make, and what a request
-- has in each status.
pub mod Steps
pub mod Seller
pub mod Track
pub mod Buyer
pub mod Balance
pub mod Open
pub mod Count
pub mod Later
pub mod Run
pub mod Progress
use vybekart_backend.Shared.{
  ℕ, ◌≡◌, refl, sym, ap, ◌∙◌, Bool, true, false, Option, none, some, ◌⊎◌, inl, inr, is_some, ltb,
  ◌==◌, ==_iff, if◌then◌else◌,
}
use vybekart_backend.Shared.Action.{Action}
use vybekart_backend.Data.{World, Uuid}
use vybekart_backend.Data.Replacements.{
  Replacement, ReplacementStatus, requested, pending_admin_review, awaiting_payment, approved,
  rejected, packed, shipped, delivered, BalanceStatus, no_balance, balance_pending, balance_paid,
}
use vybekart_backend.Data.Writes.{TableOutcome}
use vybekart_backend.Orders.Tracking.{tracked_by}
use vybekart_backend.Replacements.Rules.{rank, status_eq}

-- The changes of status.
pub data Edge : ReplacementStatus → ReplacementStatus → Type 0 where
  cleared : Edge pending_admin_review approved
  billed : Edge pending_admin_review awaiting_payment
  refused : Edge pending_admin_review rejected
  paid_for : Edge awaiting_payment approved
  filmed : Edge approved packed
  sent : Edge packed shipped
  received : Edge shipped delivered

pub data Moves (s t : ReplacementStatus) : Type 0 where
  stays : t ≡ s → Moves s t
  goes : Edge s t → Moves s t

-- Nothing is owed: there was no balance, and no order with the gateway, or it was paid.
pub data IsCovered (r : Replacement) : Type 0 where
  free :
      r.balance_payment_status ≡ no_balance
      → ltb 0 r.balance_due ≡ false
      → r.razorpay_order_id ≡ none
      → IsCovered r
  covered : r.balance_payment_status ≡ balance_paid → IsCovered r

-- No carrier has the parcel, and none reports on it.
abbrev pub IsUntracked : Replacement → Type 0
IsUntracked r = r.tracking_id ≡ none

-- What a request in a status has.
abbrev pub Papers : ReplacementStatus → Replacement → Type 0
Papers awaiting_payment r =
    (r.balance_payment_status ≡ balance_pending) × (ltb 0 r.balance_due ≡ true) × IsUntracked r
Papers approved r = IsCovered r × IsUntracked r
Papers packed r =
    IsCovered r
    × (is_some r.packing_video_url ≡ true)
    × (is_some r.packed_at ≡ true)
    × IsUntracked r
Papers shipped r = IsCovered r × (is_some r.tracking_id ≡ true) × (is_some r.shipped_at ≡ true)
Papers delivered r = IsCovered r × (is_some r.delivered_at ≡ true)
Papers _ r = (r.balance_payment_status ≡ no_balance) × (r.razorpay_order_id ≡ none) × IsUntracked r

abbrev pub IsSound : Replacement → Type 0
IsSound r = Papers r.status r

pub record Change (r r' : Replacement) : Type 0 where
  pub move : Moves r.status r'.status
  pub sound : IsSound r'
  pub same_order : r'.order_id ≡ r.order_id

-- What a write to a sound request is.
abbrev pub Legal : Replacement → Replacement → Type 0
Legal r r' = IsSound r → Change r r'

-- What an action does to the table of requests from the state `w`: nothing, or one legal write to
-- the request that it names.
abbrev pub Outcome : {A : Type 0} → Uuid → World → Action World A → Type 0
Outcome k w m = TableOutcome (λ v. v.replacements) (λ (x : Replacement). x.id) Legal k w m

status_of_rank : ℕ → ReplacementStatus
status_of_rank n =
    if n == 0
    then requested
    else if n == 1
    then pending_admin_review
    else if n == 2
    then awaiting_payment
    else if n == 3
    then approved
    else if n == 4
    then rejected
    else if n == 5
    then packed
    else if n == 6
    then shipped
    else delivered

status_of_rank-rank : (s : ReplacementStatus) → s ≡ status_of_rank (rank s)
unfolding status_of_rank
status_of_rank-rank requested = refl
status_of_rank-rank pending_admin_review = refl
status_of_rank-rank awaiting_payment = refl
status_of_rank-rank approved = refl
status_of_rank-rank rejected = refl
status_of_rank-rank packed = refl
status_of_rank-rank shipped = refl
status_of_rank-rank delivered = refl

pub status_eq-same : (s t : ReplacementStatus) → status_eq s t ≡ true → s ≡ t
status_eq-same s t e =
    status_of_rank-rank s
    ∙ ap status_of_rank ((==_iff (rank s) (rank t)).0 e)
    ∙ sym (status_of_rank-rank t)
