-- ===== src/Replacements/Status/Run.antt =====
-- Requests as steps of the whole system, and histories of requests.
use vybekart_backend.Shared.{◌≡◌, refl, Bool, Option, none, some, List, [], ◌∷◌, ◌==◌, arith}
use vybekart_backend.Shared.Lists.{All}
use vybekart_backend.Shared.Text.{Text}
use vybekart_backend.Shared.Action.{Action, ok}
use vybekart_backend.Json.{Conversions}
use vybekart_backend.Data.{World, Uuid}
use vybekart_backend.Data.Replacements.{Replacement}
use vybekart_backend.Data.Table.{row, All-row}
use vybekart_backend.Data.Writes.{
  nothing, wrote, TableOutcome-All, TableOutcome-from, RowChange, same, stepped,
  TableOutcome-RowChange,
}
use vybekart_backend.Orders.Carrier.{Carrier}
use vybekart_backend.Payments.Gateway.{Gateway}
use vybekart_backend.Payments.Verify.{Payment}
use vybekart_backend.Payments.Balance.{create_balance_order, verify_balance_payment}
use vybekart_backend.Replacements.Rules.{replacement_row}
use vybekart_backend.Replacements.Request.{ReplacementInput, create_for_order}
use vybekart_backend.Replacements.Decide.{Decision, decide, mark_balance_paid}
use vybekart_backend.Replacements.Fulfil.{upload_packing_video, request_delivery}
use vybekart_backend.Replacements.Track.{delivery_status, deliver}
use vybekart_backend.Replacements.Status.{IsSound, Legal, Outcome}
use vybekart_backend.Replacements.Status.Seller.{
  upload_packing_video-Outcome, request_delivery-Outcome,
}
use vybekart_backend.Replacements.Status.Track.{delivery_status-Outcome, deliver-Outcome}
use vybekart_backend.Replacements.Status.Buyer.{decide-Outcome, mark_balance_paid-Outcome}
use vybekart_backend.Replacements.Status.Balance.{
  create_balance_order-Outcome, verify_balance_payment-Outcome,
}
use vybekart_backend.Replacements.Status.Open.{Entry, unchanged, entered, create_for_order-Enters}
use vybekart_backend.Replacements.Status.Later.{
  Moves-Later, RowLater, RowLater-refl, RowLater-trans,
}
use vybekart_backend.Replacements.Status.Count.{
  AtMostOneOpen, Change-open, count-update, Entry-count,
}

-- A call on a replacement request, with the user who makes it.
pub data Call : Type 0 where
  decides : Uuid → Uuid → Decision → Call
  marks_paid : Uuid → Uuid → Call
  orders_balance : Uuid → Uuid → Call
  pays_balance : Uuid → Uuid → Payment → Call
  films : Bool → Text → Uuid → Uuid → Call
  hands_over polls delivers : Uuid → Uuid → Call

-- The id that the call names.
abbrev pub called : Call → Uuid
called (decides k a d) = k
called (marks_paid k p) = k
called (orders_balance k u) = k
called (pays_balance k u d) = k
called (films b url k u) = k
called (hands_over k u) = k
called (polls k u) = k
called (delivers k u) = k

-- What is known of a row of a sound table.
abbrev Held : Option Replacement → Type 0
Held none = Unit
Held (some r) = IsSound r

held :
    (xs : List Replacement) (j : Uuid) (o : Option Replacement)
    → All IsSound xs
    → row (λ (x : Replacement). x.id) j xs ≡ o
    → Held o
held xs j none a e = tt
held xs j (some r) a e = All-row IsSound (λ (x : Replacement). x.id) j xs r a e

RowLater-on :
    (b : Bool) (o o' : Option Replacement) → RowChange Legal b o o' → Held o → RowLater o o'
RowLater-on b _ _ (same o) h = RowLater-refl o
RowLater-on b _ _ (stepped o o' e legal) h = Moves-Later _ _ (legal h).move

-- An action of which only the effect counts.
abbrev pub effect_of : {A : Type 0} → Action World A → Action World (Unit {0})
effect_of m w = (ok tt, (m w).1)

effect_of-Outcome :
    {A : Type 0} {k : Uuid} {w : World} {m : Action World A}
    → Outcome k w m
    → Outcome k w (effect_of m)
effect_of-Outcome o = TableOutcome-from refl o

Outcome-count :
    {A : Type 0} (k : Uuid) (w : World) (m : Action World A)
    → Outcome k w m
    → All IsSound w.replacements
    → AtMostOneOpen w.replacements
    → AtMostOneOpen (m w).1.replacements
Outcome-count k w m (nothing q) a h = rw q h
Outcome-count k w m (wrote f r there legal keeps q) a h =
    let r_sound = All-row IsSound (λ (x : Replacement). x.id) k w.replacements r a there in
    rw q λ j.
      let before_it = h j in
      let less =
        count-update j k f w.replacements r there (Change-open j r (f r) (legal r_sound)) in
      omega (arith, before_it, less)

Entry-IsSound :
    (k : Uuid) (xs ys : List Replacement) → Entry k xs ys → All IsSound xs → All IsSound ys
Entry-IsSound k xs ys (unchanged q) a = rw q a
Entry-IsSound k xs ys (entered r e first sound q) a = rw q (sound, a)

-- A request to the service on replacements: a new one, or a call on one.
pub data Event : Type 0 where
  opens : Uuid → Uuid → ReplacementInput → Event
  calls : Call → Event

-- Every request has what its status wants, and no order has two that are open.
pub record IsOrderly (w : World) : Type 0 where
  pub sound : All IsSound w.replacements
  pub single : AtMostOneOpen w.replacements

module _ (js : Conversions) (c : Carrier) (g : Gateway) where
  unfoldable pub act : Call → Action World (Unit {0})
  act (decides k a d) = effect_of (decide k a d)
  act (marks_paid k p) = effect_of (mark_balance_paid k p)
  act (orders_balance k u) = effect_of (create_balance_order g u k)
  act (pays_balance k u d) = effect_of (verify_balance_payment g u k d)
  act (films b url k u) = effect_of (upload_packing_video b url k u)
  act (hands_over k u) = effect_of (request_delivery c k u)
  act (polls k u) = effect_of (delivery_status c k u)
  act (delivers k u) = effect_of (deliver k u)

  act-Outcome : (x : Call) (w : World) → Outcome (called x) w (act x)
  unfolding act
  act-Outcome (decides k a d) w = effect_of-Outcome (decide-Outcome k a d w)
  act-Outcome (marks_paid k p) w = effect_of-Outcome (mark_balance_paid-Outcome k p w)
  act-Outcome (orders_balance k u) w = effect_of-Outcome (create_balance_order-Outcome g u k w)
  act-Outcome (pays_balance k u d) w = effect_of-Outcome (verify_balance_payment-Outcome g u k d w)
  act-Outcome (films b url k u) w = effect_of-Outcome (upload_packing_video-Outcome b url k u w)
  act-Outcome (hands_over k u) w = effect_of-Outcome (request_delivery-Outcome c k u w)
  act-Outcome (polls k u) w = effect_of-Outcome (delivery_status-Outcome c k u w)
  act-Outcome (delivers k u) w = effect_of-Outcome (deliver-Outcome k u w)

  act-IsOrderly : (x : Call) (w : World) → IsOrderly w → IsOrderly (act x w).1
  act-IsOrderly x w o = record {
    sound =
        TableOutcome-All IsSound (called x) w (act x) (λ r r' legal h. (legal h).sound)
          (act-Outcome x w) o.sound;
    single = Outcome-count (called x) w (act x) (act-Outcome x w) o.sound o.single;
  }

  -- The state after an event, whether it returns or throws.
  unfoldable pub handle : Event → World → World
  handle (opens u k d) w = (create_for_order js u k d w).1
  handle (calls x) w = (act x w).1

  handle-IsOrderly : (e : Event) (w : World) → IsOrderly w → IsOrderly (handle e w)
  unfolding handle
  handle-IsOrderly (calls x) w o = act-IsOrderly x w o
  handle-IsOrderly (opens u k d) w o =
      let entry = (create_for_order-Enters js u k d w).entry in
      record {
        sound = Entry-IsSound k w.replacements _ entry o.sound;
        single = Entry-count k w.replacements _ entry o.single;
      }

  abbrev pub history : List Event → World → World
  history [] w = w
  history (e ∷ es) w = history es (handle e w)

  -- If every replacement request has what its status wants, and no order has two requests that are
  -- not rejected, then the same holds after any history of new requests, decisions, payments,
  -- packing videos, shipments, polls and deliveries, whichever of them throw. What a status wants:
  -- AWAITING_PAYMENT a balance above zero that is pending; APPROVED, PACKED, SHIPPED and DELIVERED
  -- that no balance is due and no payment was ordered, or that the balance is paid; PACKED also the
  -- video and its time, SHIPPED the tracking id and the time, DELIVERED the time; and no carrier
  -- that reports on the request before it is SHIPPED.
  pub history-IsOrderly : (es : List Event) (w : World) → IsOrderly w → IsOrderly (history es w)
  history-IsOrderly [] w o = o
  history-IsOrderly (e ∷ es) w o = history-IsOrderly es (handle e w) (handle-IsOrderly e w o)

  abbrev pub run_calls : List Call → World → World
  run_calls [] w = w
  run_calls (x ∷ xs) w = run_calls xs (act x w).1

  -- If the requests are orderly, then after any calls on them every request is still there, its
  -- stage (review, payment, decision, packed, shipped, delivered) is not before the stage that it
  -- had, and it is REJECTED if it was.
  pub run_calls-RowLater :
      (xs : List Call) (w : World) (j : Uuid)
      → IsOrderly w
      → RowLater (replacement_row j w) (replacement_row j (run_calls xs w))
  run_calls-RowLater [] w j o = RowLater-refl (replacement_row j w)
  run_calls-RowLater (x ∷ xs) w j o =
      RowLater-trans _ (replacement_row j (act x w).1) _
        (RowLater-on (called x == j) _ _
          (TableOutcome-RowChange (called x) w (act x) j (act-Outcome x w))
          (held w.replacements j _ o.sound refl))
        (run_calls-RowLater xs (act x w).1 j (act-IsOrderly x w o))
