-- ===== src/Orders/Status.antt =====
-- The life of an order: the status changes that the handlers of orders.service.ts make, what an
-- order carries in each status, and a request as a step of the system.
pub mod Steps
pub mod Handlers
pub mod Packing
pub mod Closing
pub mod Run
use vybekart_backend.Shared.{
  ℕ, ◌≡◌, refl, Bool, true, false, Option, none, some, ◌⊎◌, inl, inr, is_some, ◌==◌, if◌then◌else◌,
  ==_iff, sym, ap, ◌∙◌,
}
use vybekart_backend.Shared.Action.{Action}
use vybekart_backend.Data.{World, Uuid}
use vybekart_backend.Data.Orders.{
  Order, OrderStatus, pending, paid, packed, shipped, delivered, cancelled, returned,
}
use vybekart_backend.Data.Writes.{TableOutcome}
use vybekart_backend.Orders.Lookup.{rank, status_eq, order_row}
use vybekart_backend.Orders.Tracking.{tracked_by}

-- The changes of status, as the order's page shows them. The last is the carrier's word.
pub data Edge : OrderStatus → OrderStatus → Type 0 where
  accepted : Edge pending paid
  filmed : Edge paid packed
  sent : Edge paid shipped
  handed_over : Edge packed shipped
  received : Edge shipped delivered
  called_off : Edge pending cancelled
  called_off_paid : Edge paid cancelled
  called_off_packed : Edge packed cancelled
  brought_back : Edge delivered returned

-- A step of one order: its status stays, it follows an edge, or the carrier that tracks it says
-- that it is delivered.
pub data Step (o o' : Order) : Type 0 where
  stays : o'.status ≡ o.status → Step o o'
  moves : Edge o.status o'.status → Step o o'
  reported :
      is_some (tracked_by o.delivery_provider o.tracking_id) ≡ true
      → o'.status ≡ delivered
      → Step o o'

-- No carrier reports on the order.
abbrev pub IsUntracked : Order → Type 0
IsUntracked o = tracked_by o.delivery_provider o.tracking_id ≡ none

-- What an order in a status carries.
abbrev pub Papers : OrderStatus → Order → Type 0
Papers packed o =
    (is_some o.stream_id ≡ true)
    × (is_some o.packing_video_url ≡ true)
    × (is_some o.packed_at ≡ true)
    × IsUntracked o
Papers shipped o =
    (is_some o.tracking_id ≡ true) × (is_some o.carrier_name ≡ true) × (is_some o.shipped_at ≡ true)
Papers delivered o = is_some o.delivered_at ≡ true
Papers returned o = is_some o.delivered_at ≡ true
Papers _ o = IsUntracked o

abbrev pub HasPapers : Order → Type 0
HasPapers o = Papers o.status o

pub record Legal (o o' : Order) : Type 0 where
  pub step : Step o o'
  pub kept : HasPapers o → HasPapers o'

-- What an action does to the table of orders from the state `w`: nothing, or one legal write to
-- the order that it names.
abbrev pub Outcome : {A : Type 0} → Uuid → World → Action World A → Type 0
Outcome k w m = TableOutcome (λ v. v.orders) (λ (x : Order). x.id) Legal k w m

status_of_rank : ℕ → OrderStatus
status_of_rank n =
    if n == 0
    then pending
    else if n == 1
    then paid
    else if n == 2
    then packed
    else if n == 3
    then shipped
    else if n == 4
    then delivered
    else if n == 5
    then cancelled
    else returned

status_of_rank-rank : (s : OrderStatus) → s ≡ status_of_rank (rank s)
unfolding status_of_rank
status_of_rank-rank pending = refl
status_of_rank-rank paid = refl
status_of_rank-rank packed = refl
status_of_rank-rank shipped = refl
status_of_rank-rank delivered = refl
status_of_rank-rank cancelled = refl
status_of_rank-rank returned = refl

pub status_eq-same : (s t : OrderStatus) → status_eq s t ≡ true → s ≡ t
status_eq-same s t e =
    status_of_rank-rank s
    ∙ ap status_of_rank ((==_iff (rank s) (rank t)).0 e)
    ∙ sym (status_of_rank-rank t)
