-- ===== src/Data/Writes.antt =====
-- What an action does to one table: nothing, or one legal write to the row of one key.
use vybekart_backend.Shared.{
  ◌≡◌, refl, ap, sym, ◌∙◌, Bool, true, false, Option, some, List, ◌==◌, ==_iff, Bool-cases, inl,
  inr, if◌then◌else◌,
}
use vybekart_backend.Shared.Action.{Action, Result, ok, err, pure, gets, transaction, ◌>>=◌}
use vybekart_backend.Shared.Reads.{Reads, failed, found}
use vybekart_backend.Data.{World, Uuid}
use vybekart_backend.Shared.Lists.{All}
use vybekart_backend.Data.Table.{row, update, row-update, All-row, All-update}

pub data TableOutcome {R A : Type 0} (table : World → List R) (key : R → Uuid)
    (Legal : R → R → Type 0) (k : Uuid) (w : World) (m : Action World A) : Type 0 where
  nothing : table (m w).1 ≡ table w → TableOutcome table key Legal k w m
  wrote :
      (f : R → R) (o : R)
      → row key k (table w) ≡ some o
      → Legal o (f o)
      → ((x : R) → key (f x) ≡ key x)
      → table (m w).1 ≡ update key k f (table w)
      → TableOutcome table key Legal k w m

-- The row of a key before and after: as it was, or one legal step on.
pub data RowChange {R : Type 0} (Legal : R → R → Type 0) (here : Bool)
    : Option R → Option R → Type 0 where
  same : (o : Option R) → RowChange Legal here o o
  stepped : (o o' : R) → here ≡ true → Legal o o' → RowChange Legal here (some o) (some o')

-- An action that leaves a part of the state alone.
pub data StillOn {T A : Type 0} (table : World → T) (m : Action World A) : Type 0 where
  still : ((t : World) → table (m t).1 ≡ table t) → StillOn table m

pub StillOn-run :
    {T A : Type 0} {table : World → T} {m : Action World A}
    → StillOn table m
    → (t : World) → table (m t).1 ≡ table t
StillOn-run (still h) = h

by_result :
    {T A B : Type 0} (table : World → T) (f : A → Action World B)
    → ((a : A) → StillOn table (f a))
    → (r : Result A) (t : World)
    → table (elim r as (λ _. Result B × World) [ ok a ↦ f a t | err x ↦ (err x, t) ]).1 ≡ table t
by_result table f rest (ok a) t = StillOn-run (rest a) t
by_result table f rest (err e) t = refl

module _ {T A : Type 0} {table : World → T} where
  pub StillOn-bind :
      {B : Type 0} {m : Action World A} {f : A → Action World B}
      → StillOn table m
      → ((a : A) → StillOn table (f a))
      → StillOn table (m >>= f)
  StillOn-bind {m} {f} first rest =
      still λ t. by_result table f rest (m t).0 (m t).1 ∙ StillOn-run first t

  pub StillOn-if :
      {m n : Action World A} (b : Bool)
      → StillOn table m
      → StillOn table n
      → StillOn table (if b then m else n)
  StillOn-if true p q = p
  StillOn-if false p q = q

  pub gets-StillOn : (f : World → A) → StillOn table (gets f)
  gets-StillOn f = still λ t. refl

  pub pure-StillOn : (a : A) → StillOn table (pure a)
  pure-StillOn a = still λ t. refl

module _ {R : Type 0} {table : World → List R} {key : R → Uuid} {Legal : R → R → Type 0} where
  -- Two actions that agree from `w`.
  pub TableOutcome-from :
      {A B : Type 0} {k : Uuid} {w : World} {m : Action World A} {n : Action World B}
      → table (m w).1 ≡ table (n w).1
      → TableOutcome table key Legal k w n
      → TableOutcome table key Legal k w m
  TableOutcome-from e (nothing q) = nothing (e ∙ q)
  TableOutcome-from e (wrote g o there legal keeps q) = wrote g o there legal keeps (e ∙ q)

  -- An action after one that only reads.
  pub after :
      {A B : Type 0} {m : Action World A} {f : A → Action World B} {w : World} {P : A → Type 0}
      {k : Uuid}
      → Reads w P m
      → ((a : A) → P a → TableOutcome table key Legal k w (f a))
      → TableOutcome table key Legal k w (m >>= f)
  after {B} {f} (failed e h) go = nothing (
      ap (λ (r : Result B × World). table r.1)
        (ap (λ r. elim r.0 [ ok a ↦ f a r.1 | err x ↦ (err x, r.1) ]) h))
  after {B} {f} {w} (found a p h) go =
      TableOutcome-from
        (ap (λ (r : Result B × World). table r.1)
          (ap (λ r. elim r.0 [ ok a ↦ f a r.1 | err x ↦ (err x, r.1) ]) h))
        (go a p)

  -- An action before one that leaves the table alone.
  pub before :
      {A B : Type 0} {m : Action World A} (f : A → Action World B) {w : World} {k : Uuid}
      → ((a : A) → StillOn table (f a))
      → TableOutcome table key Legal k w m
      → TableOutcome table key Legal k w (m >>= f)
  before {m} f {w} rest o = TableOutcome-from (by_result table f rest (m w).0 (m w).1) o

  -- An action after one that leaves the table alone.
  pub still_first :
      {A B : Type 0} (m : Action World A) (f : A → Action World B) (w : World) (k : Uuid)
      → StillOn table m
      → ((a : A) (t : World) → table t ≡ table w → TableOutcome table key Legal k t (f a))
      → TableOutcome table key Legal k w (m >>= f)
  still_first {A} {B} m f w k quiet go =
      TableOutcome-from refl (by_run (m w).0 (m w).1 (StillOn-run quiet w))
    where
      by_run :
          (r : Result A) (t : World)
          → table t ≡ table w
          → TableOutcome {A = B} table key Legal k w
              (λ _. elim r [ ok a ↦ f a t | err x ↦ (err x, t) ])
      by_run (err x) t q = nothing q
      by_run (ok a) t q = elim (go a t q) [
        | nothing p ↦ nothing (p ∙ q)
        | wrote g o there legal keeps p ↦
            wrote g o (ap (λ os. row key k os) (sym q) ∙ there) legal keeps
              (p ∙ ap (λ os. update key k g os) q)
      ]

  pub transaction-TableOutcome :
      {A : Type 0} (k : Uuid) (w : World) (m : Action World A)
      → TableOutcome table key Legal k w m
      → TableOutcome table key Legal k w (transaction m)
  transaction-TableOutcome {A} k w m o =
      TableOutcome-from refl (by_run (m w).0 (m w).1 (TableOutcome-from refl o))
    where
      by_run :
          (r : Result A) (t : World)
          → TableOutcome {A = A} table key Legal k w (λ _. (r, t))
          → TableOutcome {A = A} table key Legal k w
              (λ _. elim r [ ok a ↦ (ok a, t) | err x ↦ (err x, w) ])
      by_run (ok a) t p = p
      by_run (err x) t p = nothing refl

  -- An action that only returns.
  pub pure-TableOutcome :
      {A : Type 0} {k : Uuid} {w : World} (a : A) → TableOutcome table key Legal k w (pure a)
  pure-TableOutcome a = nothing refl

  -- Either of two actions.
  pub TableOutcome-if :
      {A : Type 0} {k : Uuid} {w : World} {m n : Action World A} (b : Bool)
      → (b ≡ true → TableOutcome table key Legal k w m)
      → (b ≡ false → TableOutcome table key Legal k w n)
      → TableOutcome table key Legal k w (if b then m else n)
  TableOutcome-if true p q = p refl
  TableOutcome-if false p q = q refl

  -- What the outcome means for the row of any key.
  pub TableOutcome-RowChange :
      {A : Type 0} (k : Uuid) (w : World) (m : Action World A) (j : Uuid)
      → TableOutcome table key Legal k w m
      → RowChange Legal (k == j) (row key j (table w)) (row key j (table (m w).1))
  TableOutcome-RowChange k w m j (nothing q) = rw q (same _)
  TableOutcome-RowChange k w m j (wrote f o there legal keeps q) =
      rw (q, row-update key f keeps j k (table w))
        (elim (Bool-cases (k == j)) [
          | inl here ↦
              let there = rw ((==_iff k j).0 here) at there in
              rw (here, there) (stepped o (f o) refl legal)
          | inr other ↦ rw other (same _)
        ])

  -- A property of all rows that a legal write keeps.
  pub TableOutcome-All :
      {A : Type 0} (P : R → Type 0) (k : Uuid) (w : World) (m : Action World A)
      → ((o o' : R) → Legal o o' → P o → P o')
      → TableOutcome table key Legal k w m
      → All P (table w)
      → All P (table (m w).1)
  TableOutcome-All P k w m keep (nothing q) a = rw q a
  TableOutcome-All P k w m keep (wrote f o there legal keeps q) a = rw q (
      All-update P key k f (table w) o there
        (keep o (f o) legal (All-row P key k (table w) o a there)) a)
