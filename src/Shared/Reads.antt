-- ===== src/Shared/Reads.antt =====
-- Actions that only read the state.
use mathlib.Core.Path.{◌≡◌, refl, ap, ◌∙◌}
use mathlib.Core.Bool.{Bool, true, false}
use mathlib.Core.Option.{Option, none, some}
use vybekart_backend.Shared.Action.{
  Action, Exception, ok, err, gets, pure, throw_if, required, ◌>>=◌,
}

-- An action that only reads: from `w` it throws, or returns a value with the property `P`.
pub data Reads {S A : Type 0} (w : S) (P : A → Type 0) (m : Action S A) : Type 0 where
  failed : (e : Exception) → m w ≡ (err e, w) → Reads w P m
  found : (a : A) → P a → m w ≡ (ok a, w) → Reads w P m

pub gets-Reads : {S A : Type 0} (w : S) (f : S → A) → Reads w (λ a. a ≡ f w) (gets f)
gets-Reads w f = found (f w) refl refl

pub throw_if-Reads :
    {S : Type 0} (w : S) (c : Bool) (e : Exception) → Reads w (λ _. c ≡ false) (throw_if c e)
throw_if-Reads w true e = failed e refl
throw_if-Reads w false e = found tt refl refl

pub required-Reads :
    {S A : Type 0} (w : S) (o : Option A) (e : Exception) → Reads w (λ a. o ≡ some a) (required o e)
required-Reads w none e = failed e refl
required-Reads w (some a) e = found a refl refl

pub pure-Reads : {S A : Type 0} (w : S) (P : A → Type 0) (a : A) → P a → Reads w P (pure {S = S} a)
pure-Reads w P a p = found a p refl

-- Two reading actions one after the other.
pub Reads-bind :
    {S A B : Type 0} {m : Action S A} {f : A → Action S B} {w : S} {P : A → Type 0} {Q : B → Type 0}
    → Reads w P m
    → ((a : A) → P a → Reads w Q (f a))
    → Reads w Q (m >>= f)
Reads-bind {f} (failed e h) k =
    failed e (ap (λ r. elim r.0 [ ok a ↦ f a r.1 | err x ↦ (err x, r.1) ]) h)
Reads-bind {f} (found a p h) k =
    let go = ap (λ r. elim r.0 [ ok a ↦ f a r.1 | err x ↦ (err x, r.1) ]) h in
    elim (k a p) [ failed e i ↦ failed e (go ∙ i) | found b q i ↦ found b q (go ∙ i) ]

-- A row that is required after it has been read.
pub require_read-Reads :
    {S A : Type 0} (w : S) (f : S → Option A) (e : Exception)
    → Reads w (λ a. f w ≡ some a) (gets f >>= λ o. required o e)
require_read-Reads w f e = elim (required-Reads w (f w) e) [
  | failed x h ↦ failed x h
  | found a p h ↦ found a p h
]
