-- ===== src/Shared/Action.antt =====
-- HTTP exceptions, and service methods as actions: a method takes the state of the stores and
-- returns its result or the exception it throws, with the state that it leaves behind.
use Prim.Native.String.{String}
use mathlib.Core.Path.{◌≡◌, refl, ap}
use mathlib.Core.Bool.{Bool}
use mathlib.Core.Option.{Option, none, some}
use vybekart_backend.Shared.Tests.{if◌then◌else◌}

-- The exceptions of `@nestjs/common`, with their messages less what is interpolated into them;
-- `internal` is any other error.
pub data Exception : Type 0 where
  bad_request forbidden not_found unauthorized conflict service_unavailable : String → Exception
  internal : Exception

pub data Result {ℓ} (A : Type ℓ) : Type ℓ where
  ok : A → Result A
  err : Exception → Result A

abbrev pub Action : Type 0 → Type 0 → Type 0
Action S A = S → Result A × S

module _ {S A : Type 0} where
  abbrev pub pure : A → Action S A
  pure a s = (ok a, s)

  abbrev pub throw : Exception → Action S A
  throw e s = (err e, s)

  abbrev pub gets : (S → A) → Action S A
  gets f s = (ok (f s), s)

  -- `if (!x) throw e`
  abbrev pub required : Option A → Exception → Action S A
  required none e = throw e
  required (some a) e = pure a

  abbrev pub of_result : Result A → Action S A
  of_result r s = (r, s)

  -- `prisma.$transaction`: an exception undoes the writes.
  abbrev pub transaction : Action S A → Action S A
  transaction m s = let (r, t) = m s in elim r [ ok a ↦ (ok a, t) | err e ↦ (err e, s) ]

infixl 5 ◌>>=◌ ◌>>◌
abbrev pub ◌>>=◌ : {S A B : Type 0} → Action S A → (A → Action S B) → Action S B
◌>>=◌ m f s = let (r, t) = m s in elim r [ ok a ↦ f a t | err e ↦ (err e, t) ]

abbrev pub ◌>>◌ : {S A B : Type 0} → Action S A → Action S B → Action S B
m >> k = m >>= λ _. k

module _ {S : Type 0} where
  -- `if (c) throw e`
  abbrev pub throw_if : Bool → Exception → Action S (Unit {0})
  throw_if c e s = (if c then err e else ok tt, s)

  abbrev pub modify : (S → S) → Action S (Unit {0})
  modify f s = (ok tt, f s)

-- A chain that returns: its first part has returned, and the rest has run from there.
pub record Returned {S A B : Type 0} (m : Action S A) (f : A → Action S B) (s : S) (b : B) (t : S)
    : Type 0 where
  pub value : A
  pub between : S
  pub first : m s ≡ (ok value, between)
  pub rest : f value between ≡ (ok b, t)

pub >>=-ok :
    {S A B : Type 0} (m : Action S A) (f : A → Action S B) (s : S) (b : B) (t : S)
    → (m >>= f) s ≡ (ok b, t)
    → Returned m f s b t
>>=-ok {S} {A} {B} m f s b t e = by_result (m s).0 (m s).1 refl e
  where
    by_result :
        (r : Result A) (u : S)
        → m s ≡ (r, u)
        → ◌≡◌ {A = Result B × S} (elim r [ ok a ↦ f a u | err x ↦ (err x, u) ]) (ok b, t)
        → Returned m f s b t
    by_result (ok a) u h k = record { value = a; between = u; first = h; rest = k }
    by_result (err x) u h k = cc

-- A chain whose first part returns goes on with the rest.
pub >>=-run :
    {S A B : Type 0} (m : Action S A) (f : A → Action S B) (s : S) (a : A) (t : S)
    → m s ≡ (ok a, t)
    → (m >>= f) s ≡ f a t
>>=-run m f s a t e = ap (λ r. elim r.0 [ ok a ↦ f a r.1 | err x ↦ (err x, r.1) ]) e
