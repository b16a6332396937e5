-- ===== src/Shared/Ends.antt =====
-- What holds where an action returns.
use mathlib.Core.Path.{◌≡◌, refl, ap, ◌∙◌}
use mathlib.Core.Bool.{Bool, true, false}
use vybekart_backend.Shared.Tests.{if◌then◌else◌}
use vybekart_backend.Shared.Action.{Action, Exception, ok, err, ◌>>=◌}
use vybekart_backend.Shared.Reads.{Reads, failed, found}

-- What is true of the end of an action that returns.
pub data Ends {S A : Type 0} (Q : A → S → Type 0) (w : S) (m : Action S A) : Type 0 where
  thrown : (e : Exception) (t : S) → m w ≡ (err e, t) → Ends Q w m
  ended : (a : A) (t : S) → m w ≡ (ok a, t) → Q a t → Ends Q w m

pub Ends-after :
    {S A B : Type 0} {Q : B → S → Type 0} {w : S} {P : A → Type 0} {m : Action S A}
    {f : A → Action S B}
    → Reads w P m
    → ((a : A) → P a → Ends Q w (f a))
    → Ends Q w (m >>= f)
Ends-after {w} {f} (failed e h) go =
    thrown e w (ap (λ r. elim r.0 [ ok a ↦ f a r.1 | err x ↦ (err x, r.1) ]) h)
Ends-after {f} (found a p h) go =
    let run = ap (λ r. elim r.0 [ ok a ↦ f a r.1 | err x ↦ (err x, r.1) ]) h in
    elim (go a p) [ thrown e t k ↦ thrown e t (run ∙ k) | ended b t k q ↦ ended b t (run ∙ k) q ]

pub Ends-if :
    {S A : Type 0} {Q : A → S → Type 0} {w : S} {m n : Action S A} (b : Bool)
    → (b ≡ true → Ends Q w m)
    → (b ≡ false → Ends Q w n)
    → Ends Q w (if b then m else n)
Ends-if true p q = p refl
Ends-if false p q = q refl
