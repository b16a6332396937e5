-- ===== src/Replacements/Status/Later.antt =====
-- How far a request has come, and what a later state of it may be.
use vybekart_backend.Shared.{ℕ, ◌≡◌, ◌≤◌, Option, none, some, arith}
use vybekart_backend.Data.Replacements.{
  Replacement, ReplacementStatus, requested, pending_admin_review, awaiting_payment, approved,
  rejected, packed, shipped, delivered,
}
use vybekart_backend.Replacements.Status.{Edge, Moves, stays, goes}

-- How far a request has come.
abbrev pub stage : ReplacementStatus → ℕ
stage requested = 0
stage pending_admin_review = 0
stage awaiting_payment = 1
stage approved = 2
stage rejected = 2
stage packed = 3
stage shipped = 4
stage delivered = 5

Moves-stage : (s t : ReplacementStatus) → Moves s t → stage s ≤ stage t
Moves-stage s t (stays e) = rw e (omega arith)
Moves-stage _ _ (goes Edge.cleared) = omega arith
Moves-stage _ _ (goes Edge.billed) = omega arith
Moves-stage _ _ (goes Edge.refused) = omega arith
Moves-stage _ _ (goes Edge.paid_for) = omega arith
Moves-stage _ _ (goes Edge.filmed) = omega arith
Moves-stage _ _ (goes Edge.sent) = omega arith
Moves-stage _ _ (goes Edge.received) = omega arith

-- From a request to a later state of it: it is further on, and one that is rejected stays so.
pub record Later (s t : ReplacementStatus) : Type 0 where
  pub onward : stage s ≤ stage t
  pub final : s ≡ rejected → t ≡ rejected

no_way_on : (s t : ReplacementStatus) → Edge s t → s ≡ rejected → ⊥
no_way_on _ _ Edge.cleared e = cc
no_way_on _ _ Edge.billed e = cc
no_way_on _ _ Edge.refused e = cc
no_way_on _ _ Edge.paid_for e = cc
no_way_on _ _ Edge.filmed e = cc
no_way_on _ _ Edge.sent e = cc
no_way_on _ _ Edge.received e = cc

pub Moves-Later : (s t : ReplacementStatus) → Moves s t → Later s t
Moves-Later s t (stays e) = rw e (record { onward = omega arith; final = λ h. h })
Moves-Later s t (goes e) = record {
  onward = Moves-stage s t (goes e);
  final = λ h. absurd (no_way_on s t e h);
}

Later-trans : (s t u : ReplacementStatus) → Later s t → Later t u → Later s u
Later-trans s t u p q =
    let a = p.onward in
    let b = q.onward in record { onward = omega (arith, a, b); final = λ h. q.final (p.final h) }

-- The row of a request before and after.
abbrev pub RowLater : Option Replacement → Option Replacement → Type 0
RowLater none o = Unit
RowLater (some r) none = ⊥
RowLater (some r) (some r') = Later r.status r'.status

pub RowLater-refl : (o : Option Replacement) → RowLater o o
RowLater-refl none = tt
RowLater-refl (some r) = record { onward = omega arith; final = λ h. h }

pub RowLater-trans : (o p q : Option Replacement) → RowLater o p → RowLater p q → RowLater o q
RowLater-trans none p q x y = tt
RowLater-trans (some o) none q x y = absurd x
RowLater-trans (some o) (some p) none x y = absurd y
RowLater-trans (some o) (some p) (some q) x y = Later-trans _ _ _ x y
