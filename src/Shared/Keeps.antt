-- ===== src/Shared/Keeps.antt =====
-- Actions that keep an invariant of the state.
use mathlib.Core.Bool.{Bool, true, false}
use mathlib.Core.Path.{◌≡◌, refl}
use mathlib.Core.Option.{Option, none, some}
use vybekart_backend.Shared.Tests.{if◌then◌else◌}
use vybekart_backend.Shared.Action.{
  Action, Exception, Result, ok, err, gets, pure, modify, required, throw_if, ◌>>=◌,
}
use vybekart_backend.Shared.Returns.{Gives}

-- Where the invariant holds before, it holds after, whether the action returns or throws; and a
-- value that is returned has the property `P`.
pub record Keeps {S A : Type 0} (Inv : S → Type 0) (P : A → Type 0) (m : Action S A) : Type 0 where
  pub kept : (w : S) → Inv w → Inv (m w).1
  pub gives : (w : S) → Inv w → Gives P (m w)

module _ {S : Type 0} {Inv : S → Type 0} where
  pub Keeps-bind :
      {A B : Type 0} {P : A → Type 0} {Q : B → Type 0} {m : Action S A} {f : A → Action S B}
      → Keeps Inv P m
      → ((a : A) → P a → Keeps Inv Q (f a))
      → Keeps Inv Q (m >>= f)
  Keeps-bind {A} {B} {P} {Q} {m} {f} first rest = record {
    kept = λ w i. kept_by (m w).0 (m w).1 (first.kept w i) (first.gives w i);
    gives = λ w i. given_by (m w).0 (m w).1 (first.kept w i) (first.gives w i);
  }
    where
      kept_by :
          (r : Result A) (t : S)
          → Inv t
          → Gives P (r, t)
          → Inv (elim r as (λ _. Result B × S) [ ok a ↦ f a t | err x ↦ (err x, t) ]).1
      kept_by (ok a) t i p = (rest a p).kept t i
      kept_by (err e) t i p = i

      given_by :
          (r : Result A) (t : S)
          → Inv t
          → Gives P (r, t)
          → Gives Q (elim r as (λ _. Result B × S) [ ok a ↦ f a t | err x ↦ (err x, t) ])
      given_by (ok a) t i p = (rest a p).gives t i
      given_by (err e) t i p = tt

  pub gets-Keeps :
      {A : Type 0} (P : A → Type 0) (f : S → A) → ((w : S) → Inv w → P (f w)) → Keeps Inv P (gets f)
  gets-Keeps P f h = record { kept = λ w i. i; gives = h }

  pub pure-Keeps : {A : Type 0} (P : A → Type 0) (a : A) → P a → Keeps Inv P (pure a)
  pure-Keeps P a p = record { kept = λ w i. i; gives = λ w i. p }

  pub modify-Keeps : (f : S → S) → ((w : S) → Inv w → Inv (f w)) → Keeps Inv (λ _. Unit) (modify f)
  modify-Keeps f h = record { kept = h; gives = λ w i. tt }

  pub required-Keeps :
      {A : Type 0} (P : A → Type 0) (o : Option A) (e : Exception)
      → ((a : A) → o ≡ some a → P a)
      → Keeps Inv P (required o e)
  required-Keeps P none e h = record { kept = λ w i. i; gives = λ w i. tt }
  required-Keeps P (some a) e h = record { kept = λ w i. i; gives = λ w i. h a refl }

  pub throw_if-Keeps : (b : Bool) (e : Exception) → Keeps Inv (λ _. Unit) (throw_if b e)
  throw_if-Keeps true e = record { kept = λ w i. i; gives = λ w i. tt }
  throw_if-Keeps false e = record { kept = λ w i. i; gives = λ w i. tt }

  pub Keeps-if :
      {A : Type 0} {P : A → Type 0} {m n : Action S A} (b : Bool)
      → Keeps Inv P m
      → Keeps Inv P n
      → Keeps Inv P (if b then m else n)
  Keeps-if true p q = p
  Keeps-if false p q = q

  -- Whatever the action returns.
  pub Keeps-any :
      {A : Type 0} {P : A → Type 0} {m : Action S A} → Keeps Inv P m → Keeps Inv (λ _. Unit) m
  Keeps-any {A} {m} k = record { kept = k.kept; gives = λ w i. given_by (m w).0 (m w).1 }
    where
      given_by : (r : Result A) (t : S) → Gives (λ _. Unit {0}) (r, t)
      given_by (ok a) t = tt
      given_by (err e) t = tt
