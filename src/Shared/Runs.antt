-- ===== src/Shared/Runs.antt =====
-- Actions that return.
use mathlib.Core.Path.{◌≡◌, refl, ap, ◌∙◌}
use mathlib.Core.Bool.{Bool, true, false}
use mathlib.Core.Option.{Option, some}
use vybekart_backend.Shared.Action.{Action, Exception, ok, gets, throw_if, required, ◌>>=◌, >>=-run}

-- From `w` the action returns, with a value and a state that have the property `Q`.
pub data Runs {S A : Type 0} (Q : A → S → Type 0) (w : S) (m : Action S A) : Type 0 where
  runs : (a : A) (t : S) → m w ≡ (ok a, t) → Q a t → Runs Q w m

-- The value has the property `P`, and the state is as it was.
abbrev pub Finds : {S A : Type 0} → S → (A → Type 0) → Action S A → Type 0
Finds w P m = Runs (λ a t. P a × (t ≡ w)) w m

module _ {S : Type 0} where
  pub Runs-after :
      {A B : Type 0} {Q : B → S → Type 0} {w : S} {P : A → Type 0} {m : Action S A}
      {f : A → Action S B}
      → Finds w P m
      → ((a : A) → P a → Runs Q w (f a))
      → Runs Q w (m >>= f)
  Runs-after {w} {m} {f} (runs a t h (p, q)) go = elim (go a p) [
    | runs b v k r ↦ runs b v (>>=-run m f w a t h ∙ ap (f a) q ∙ k) r
  ]

  pub gets-Finds : {A : Type 0} (f : S → A) (w : S) → Finds w (λ a. a ≡ f w) (gets f)
  gets-Finds f w = runs (f w) w refl (refl, refl)

  pub throw_if-Finds :
      (c : Bool) (e : Exception) (w : S) → c ≡ false → Finds w (λ _. Unit) (throw_if c e)
  throw_if-Finds true e w h = cc
  throw_if-Finds false e w h = runs tt w refl (tt, refl)

  pub read-Finds :
      {A : Type 0} (f : S → Option A) (e : Exception) (w : S) (a : A)
      → f w ≡ some a
      → Finds w (λ x. x ≡ a) (gets f >>= λ o. required o e)
  read-Finds f e w a h = runs a w (ap (λ o. required o e w) h) (refl, refl)
