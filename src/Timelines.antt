-- ===== src/Timelines.antt =====
-- The timelines of orders and of replacement requests: the `build…Timeline` functions of
-- src/orders/seller-order.mapper.ts, src/orders/buyer-order.mapper.ts and
-- src/replacements/replacement.mapper.ts.
pub mod Orders
pub mod Replacements
pub mod Shape
pub mod Pages
pub mod Offer
pub mod Actions
use vybekart_backend.Shared.{
  ℕ, ◌+◌, ◌-◌, ◌≡◌, ◌<◌, refl, ap, ◌∙◌, Bool, true, false, not, Option, none, some, List, [], ◌∷◌,
  ◌==◌, if◌then◌else◌, arith, Bool-cases, inl, inr, ◌otherwise◌, map, ==_iff,
}
use vybekart_backend.Shared.Lists.{length}
use vybekart_backend.Shared.Text.{Text}
use vybekart_backend.Data.{Time}

pub data StepState : Type 0 where
  done active upcoming : StepState

-- A step before its state is known, and as it is shown.
pub record Stage : Type 0 where
  pub step : Text
  pub label : Text
  pub is_done : Bool
  pub at : Option Time

pub record Step : Type 0 where
  pub step : Text
  pub label : Text
  pub state : StepState
  pub at : Option Time

abbrev pub shown : StepState → Stage → Step
shown state s = record { step = s.step; label = s.label; state = state; at = s.at }

abbrev pub stage : Text → Text → Bool → Option Time → Stage
stage step label is_done at = record { step = step; label = label; is_done = is_done; at = at }

-- `!!s`
abbrev pub is_text : Option Text → Bool
is_text none = false
is_text (some []) = false
is_text (some (c ∷ s)) = true

-- The loop of the seller's timeline; the flag is `foundActive`.
unfoldable pub mark_first : Bool → List Stage → List Step
mark_first found_active [] = []
mark_first found_active (s ∷ ss) =
    let rest = mark_first found_active ss in
    let rest_found = mark_first true ss in
    if s.is_done
    then shown done s ∷ rest
    else if not found_active
    then shown active s ∷ rest_found
    else shown upcoming s ∷ rest

abbrev pub one_later : Option ℕ → Option ℕ
one_later none = none
one_later (some n) = some (n + 1)

-- `steps.findIndex((s) => !s.done)`
unfoldable pub find_undone : List Stage → Option ℕ
find_undone [] = none
find_undone (s ∷ ss) = let rest = find_undone ss in if s.is_done then one_later rest else some 0

-- `activeIdx`, of a list that is not empty
abbrev pub active_index : List Stage → ℕ
unfolding find_undone
active_index ss = find_undone ss otherwise (length ss - 1)

-- The states of the other timelines, from the index `i` on.
unfoldable pub mark_at : ℕ → ℕ → List Stage → List Step
mark_at index i [] = []
mark_at index i (s ∷ ss) =
    let rest = mark_at index (i + 1) ss in
    (if s.is_done then shown done s else if i == index then shown active s else shown upcoming s)
    ∷ rest

unfoldable pub mark_index : List Stage → List Step
unfolding mark_at find_undone
mark_index ss = mark_at (active_index ss) 0 ss

mark_first-past :
    (index i : ℕ) (ss : List Stage) → index < i → mark_first true ss ≡ mark_at index i ss
unfolding mark_first mark_at
mark_first-past index i [] h = refl
mark_first-past index i (s ∷ ss) h =
    let rest = mark_first-past index (i + 1) ss (omega (arith, h)) in ground (arith, rest, h)

one_later-none : (o : Option ℕ) → one_later o ≡ none → o ≡ none
one_later-none none h = refl
one_later-none (some n) h = cc

mark_first-done :
    (index i : ℕ) (ss : List Stage)
    → find_undone ss ≡ none
    → mark_first false ss ≡ mark_at index i ss
unfolding mark_first mark_at find_undone
mark_first-done index i [] h = refl
mark_first-done index i (s ∷ ss) h = elim (Bool-cases s.is_done) [
  | inl yes_it ↦
      let h = rw yes_it at h in
      rw yes_it (
        ap (λ r. shown done s ∷ r)
          (mark_first-done index (i + 1) ss (one_later-none (find_undone ss) h)))
  | inr no_it ↦ let h = rw no_it at h in cc
]

-- A number that was found one place earlier.
data Earlier (o : Option ℕ) (k : ℕ) : Type 0 where
  earlier : (n : ℕ) → o ≡ some n → n + 1 ≡ k → Earlier o k

one_later-Earlier : (o : Option ℕ) (k : ℕ) → one_later o ≡ some k → Earlier o k
one_later-Earlier none k h = cc
one_later-Earlier (some n) k h = let e : n + 1 ≡ k = cc in earlier n refl e

at_first :
    (s : Stage) (ss : List Stage) (i j : ℕ)
    → s.is_done ≡ false
    → i ≡ j
    → mark_first false (s ∷ ss) ≡ mark_at j i (s ∷ ss)
unfolding mark_first mark_at
at_first s ss i j h e =
    let here = (==_iff i j).1 e in
    rw (h, here) (ap (λ r. shown active s ∷ r) (mark_first-past j (i + 1) ss (omega (arith, e))))

mark_first-index :
    (k i j : ℕ) (ss : List Stage)
    → find_undone ss ≡ some k
    → i + k ≡ j
    → mark_first false ss ≡ mark_at j i ss
unfolding mark_first mark_at find_undone
mark_first-index k i j [] h e = cc
mark_first-index k i j (s ∷ ss) h e = elim (Bool-cases s.is_done) [
  | inl yes_it ↦ elim (one_later-Earlier (find_undone ss) k (rw yes_it at h)) [
    | earlier n o q ↦
        rw yes_it
          (ap (λ r. shown done s ∷ r) (mark_first-index n (i + 1) j ss o (omega (arith, q, e))))
  ]
  | inr no_it ↦
      let h = rw no_it at h in
      let zero_it : 0 ≡ k = cc in at_first s ss i j no_it (omega (arith, zero_it, e))
]

-- The loop of the seller's timeline and the index of the buyer's give the same states, for every
-- list of steps.
pub mark_first-mark_index : (ss : List Stage) → mark_first false ss ≡ mark_index ss
unfolding mark_index mark_at
mark_first-mark_index ss = by_found (find_undone ss) refl
  where
    by_found :
        (o : Option ℕ)
        → find_undone ss ≡ o
        → mark_first false ss ≡ mark_at (o otherwise (length ss - 1)) 0 ss
    by_found none e = mark_first-done (length ss - 1) 0 ss e
    by_found (some k) e = mark_first-index k 0 k ss e (omega arith)
