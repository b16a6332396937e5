-- ===== src/Replacements/Decide.antt =====
-- `decide` and `markBalancePaid`.
use vybekart_backend.Shared.{ℕ, Bool, not, Option, some, if◌then◌else◌}
use vybekart_backend.Shared.Text.{Text}
use vybekart_backend.Shared.Action.{Action, bad_request, pure, gets, throw_if, ◌>>=◌, ◌>>◌}
use vybekart_backend.Data.{World, Uuid, Time}
use vybekart_backend.Data.Replacements.{
  Replacement, pending_admin_review, awaiting_payment, approved, rejected, balance_paid,
}
use vybekart_backend.Replacements.Rules.{
  status_eq, find_replacement, update_replacement, resolve_approval_status,
}

-- `DecideReplacementDto`
pub record Decision : Type 0 where
  pub approved : Bool
  pub admin_note : Option Text

-- The data of the updates.
abbrev pub as_rejected : Time → Uuid → Option Text → Replacement → Replacement
as_rejected now admin note r = record r {
  status = rejected;
  admin_note = note;
  decided_at = some now;
  decided_by = some admin;
}

-- `balance` is the balance of the request that was read.
abbrev pub as_decided : Time → Uuid → Option Text → ℕ → Replacement → Replacement
as_decided now admin note balance r = record r {
  status = (resolve_approval_status balance).0;
  balance_payment_status = (resolve_approval_status balance).1;
  admin_note = note;
  decided_at = some now;
  decided_by = some admin;
}

abbrev pub decision_of : Time → Uuid → Decision → ℕ → Replacement → Replacement
decision_of now admin d balance =
    if d.approved
    then as_decided now admin d.admin_note balance
    else as_rejected now admin d.admin_note

unfoldable pub decide : Uuid → Uuid → Decision → Action World Replacement
unfolding find_replacement update_replacement
decide k admin d = do
  r ← find_replacement k
  throw_if (not (status_eq r.status pending_admin_review))
      (bad_request "Request is not pending admin review")
  now ← gets (λ w. w.now)
  update_replacement k (decision_of now admin d r.balance_due)

abbrev pub as_balance_paid : Uuid → Replacement → Replacement
as_balance_paid payment r = record r {
  status = approved;
  balance_payment_status = balance_paid;
  razorpay_payment_id = some payment;
}

unfoldable pub mark_balance_paid : Uuid → Uuid → Action World Replacement
unfolding find_replacement update_replacement
mark_balance_paid k payment = do
  r ← find_replacement k
  (if not (status_eq r.status awaiting_payment)
      then pure r
      else update_replacement k (as_balance_paid payment))
