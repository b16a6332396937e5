-- ===== src/Replacements/Status/Buyer.antt =====
-- The decision and the payment that is marked, as steps of the request that they name.
use vybekart_backend.Shared.{ℕ, ◌≡◌, refl, sym, ap, ◌∙◌, none, not, Bool-cases, inl, inr, ltb}
use mathlib.Core.Path.{subst}
use vybekart_backend.Shared.Action.{bad_request}
use vybekart_backend.Shared.Reads.{gets-Reads, throw_if-Reads}
use vybekart_backend.Data.{World, Uuid, Time}
use vybekart_backend.Data.Replacements.{Replacement, pending_admin_review, awaiting_payment}
use vybekart_backend.Data.Writes.{after, TableOutcome-if, pure-TableOutcome}
use vybekart_backend.Replacements.Rules.{status_eq, resolve_approval_status}
use vybekart_backend.Replacements.Decide.{
  Decision, decision_of, decide, as_balance_paid, mark_balance_paid,
}
use vybekart_backend.Replacements.Status.{
  Edge, Moves, goes, free, covered, IsUntracked, Papers, IsSound, Legal, Outcome,
}
use vybekart_backend.Replacements.Status.Steps.{
  is_status, find_replacement-Reads, update_replacement-Outcome,
}

-- Approved by score or by an admin, with a balance or without.
pub approval-IsSound :
    (r : Replacement) (balance : ℕ)
    → r.balance_due ≡ balance
    → r.status ≡ (resolve_approval_status balance).0
    → r.balance_payment_status ≡ (resolve_approval_status balance).1
    → r.razorpay_order_id ≡ none
    → IsUntracked r
    → IsSound r
approval-IsSound r balance d s p o quiet = elim (Bool-cases (ltb 0 balance)) [
  | inl dear ↦
      let s = rw dear at s in
      subst (λ t. Papers t r) (sym s) (rw dear at p, ap (λ n. ltb 0 n) d ∙ dear, quiet)
  | inr free_of ↦
      let s = rw free_of at s in
      subst (λ t. Papers t r) (sym s)
        (free (rw free_of at p) (ap (λ n. ltb 0 n) d ∙ free_of) o, quiet)
]

decided-Legal :
    (r : Replacement) (now : Time) (admin : Uuid) (d : Decision)
    → r.status ≡ pending_admin_review
    → Legal r (decision_of now admin d r.balance_due r)
decided-Legal r now admin d e sound =
    let (none_due, no_order, quiet) = subst (λ s. Papers s r) e sound in
    elim (Bool-cases d.approved) [
      | inl yes_to ↦ rw yes_to (record {
        move = decided-Moves r e;
        sound = approval-IsSound _ r.balance_due refl refl refl no_order quiet;
        same_order = refl;
      })
      | inr no_to ↦ rw no_to (record {
        move = goes (rw e Edge.refused);
        sound = (none_due, no_order, quiet);
        same_order = refl;
      })
    ]
  where
    decided-Moves :
        (r : Replacement)
        → r.status ≡ pending_admin_review
        → Moves r.status (resolve_approval_status r.balance_due).0
    decided-Moves r e = elim (Bool-cases (ltb 0 r.balance_due)) [
      | inl dear ↦ rw (dear, e) (goes Edge.billed)
      | inr free_of ↦ rw (free_of, e) (goes Edge.cleared)
    ]

decision_of-id :
    (now : Time) (admin : Uuid) (d : Decision) (balance : ℕ) (r : Replacement)
    → (decision_of now admin d balance r).id ≡ r.id
decision_of-id now admin d balance r = elim (Bool-cases d.approved) [
  | inl yes_to ↦ rw yes_to refl
  | inr no_to ↦ rw no_to refl
]

pub decide-Outcome : (k admin : Uuid) (d : Decision) (w : World) → Outcome k w (decide k admin d)
unfolding decide
decide-Outcome k admin d w = after (find_replacement-Reads k w) λ r there.
    after
      (throw_if-Reads w (not (status_eq r.status pending_admin_review))
        (bad_request "Request is not pending admin review"))
      λ _ h. after (gets-Reads w (λ v. v.now)) λ now _.
        update_replacement-Outcome k (decision_of now admin d r.balance_due) w r there
          (decided-Legal r now admin d (is_status r pending_admin_review h))
          (decision_of-id now admin d r.balance_due)

pub paid-Legal :
    (r : Replacement) (payment : Uuid)
    → (IsSound r → r.status ≡ awaiting_payment)
    → Legal r (as_balance_paid payment r)
paid-Legal r payment e sound =
    let (_, _, quiet) = subst (λ s. Papers s r) (e sound) sound in
    record {
      move = goes (rw (e sound) Edge.paid_for);
      sound = (covered refl, quiet);
      same_order = refl;
    }

pub mark_balance_paid-Outcome :
    (k payment : Uuid) (w : World) → Outcome k w (mark_balance_paid k payment)
unfolding mark_balance_paid
mark_balance_paid-Outcome k payment w = after (find_replacement-Reads k w) λ r there.
    TableOutcome-if (not (status_eq r.status awaiting_payment)) (λ _. pure-TableOutcome r)
      λ due.
        update_replacement-Outcome k (as_balance_paid payment) w r there
          (paid-Legal r payment (λ _. is_status r awaiting_payment due)) λ x. refl
