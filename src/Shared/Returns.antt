-- ===== src/Shared/Returns.antt =====
-- What holds of the value of an action that returns.
use mathlib.Core.Bool.{Bool, true, false}
use vybekart_backend.Shared.Tests.{if◌then◌else◌}
use vybekart_backend.Shared.Action.{Action, Result, ok, err, ◌>>=◌}

abbrev pub Gives : {S A : Type 0} → (A → Type 0) → Result A × S → Type 0
Gives P (ok a, t) = P a
Gives P (err e, t) = Unit

pub record Returns {S A : Type 0} (P : A → Type 0) (m : Action S A) : Type 0 where
  pub at : (w : S) → Gives P (m w)

pub anything-Returns : {S A : Type 0} (m : Action S A) → Returns (λ _. Unit {0}) m
anything-Returns {S} {A} m = record { at = λ w. by_result (m w).0 (m w).1 }
  where
    by_result : (r : Result A) (t : S) → Gives (λ _. Unit {0}) (r, t)
    by_result (ok a) t = tt
    by_result (err e) t = tt

pub Returns-bind :
    {S A B : Type 0} {P : A → Type 0} {Q : B → Type 0} {m : Action S A} {f : A → Action S B}
    → Returns P m
    → ((a : A) → P a → Returns Q (f a))
    → Returns Q (m >>= f)
Returns-bind {S} {A} {B} {P} {Q} {m} {f} first rest = record {
  at = λ w. by_result (m w).0 (m w).1 (first.at w);
}
  where
    by_result :
        (r : Result A) (t : S)
        → Gives P (r, t)
        → Gives Q (elim r as (λ _. Result B × S) [ ok a ↦ f a t | err x ↦ (err x, t) ])
    by_result (ok a) t p = (rest a p).at t
    by_result (err e) t p = tt

pub Returns-if :
    {S A : Type 0} {P : A → Type 0} (b : Bool) {m n : Action S A}
    → Returns P m
    → Returns P n
    → Returns P (if b then m else n)
Returns-if true p q = p
Returns-if false p q = q
