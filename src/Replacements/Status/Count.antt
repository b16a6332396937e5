-- ===== src/Replacements/Status/Count.antt =====
-- How many open requests an order has.
use vybekart_backend.Shared.{
  ℕ, ◌≤◌, ◌+◌, ◌≡◌, refl, true, false, none, some, List, [], ◌∷◌, Bool-cases, inl, inr, ◌==◌,
  ==_iff, arith,
}
use vybekart_backend.Shared.Lists.{length, filter, find}
use vybekart_backend.Data.{Uuid}
use vybekart_backend.Data.Replacements.{Replacement, ReplacementStatus, rejected}
use vybekart_backend.Data.Table.{row, update}
use vybekart_backend.Replacements.Rules.{status_eq}
use vybekart_backend.Replacements.Request.{is_open_for}
use vybekart_backend.Replacements.Status.{Edge, Moves, stays, goes, Change}
use vybekart_backend.Replacements.Status.Open.{Entry, unchanged, entered}

-- The open requests for the order `j`.
unfoldable pub open_count : Uuid → List Replacement → ℕ
open_count j rs = length (filter (is_open_for j) rs)

-- How many open requests for an order are in the table, at most.
abbrev pub AtMostOneOpen : List Replacement → Type 0
AtMostOneOpen rs = (j : Uuid) → open_count j rs ≤ 1

edge_open : (s t : ReplacementStatus) → Edge s t → status_eq s rejected ≡ false
edge_open _ _ Edge.cleared = refl
edge_open _ _ Edge.billed = refl
edge_open _ _ Edge.refused = refl
edge_open _ _ Edge.paid_for = refl
edge_open _ _ Edge.filmed = refl
edge_open _ _ Edge.sent = refl
edge_open _ _ Edge.received = refl

-- A legal change opens no request.
pub Change-open :
    (j : Uuid) (r r' : Replacement) → Change r r' → is_open_for j r' ≡ true → is_open_for j r ≡ true
Change-open j r r' c h = by_move c.move
  where
    by_move : Moves r.status r'.status → is_open_for j r ≡ true
    by_move (stays e) = rw (c.same_order, e) at h
    by_move (goes e) = ground (arith, c.same_order, edge_open r.status r'.status e, h)

count-cons :
    (j : Uuid) (y x : Replacement) (ys xs : List Replacement)
    → (is_open_for j y ≡ true → is_open_for j x ≡ true)
    → open_count j ys ≤ open_count j xs
    → open_count j (y ∷ ys) ≤ open_count j (x ∷ xs)
unfolding open_count
count-cons j y x ys xs opened h = elim (Bool-cases (is_open_for j y)) [
  | inl yes_it ↦ rw (yes_it, opened yes_it) (omega (arith, h))
  | inr no_it ↦
      rw no_it
        (elim (Bool-cases (is_open_for j x)) [ inl a ↦ rw a (omega (arith, h)) | inr b ↦ rw b h ])
]

count_refl : (j : Uuid) (xs : List Replacement) → open_count j xs ≤ open_count j xs
count_refl j xs = omega arith

pub count-update :
    (j k : Uuid) (f : Replacement → Replacement) (rs : List Replacement) (r : Replacement)
    → row (λ (x : Replacement). x.id) k rs ≡ some r
    → (is_open_for j (f r) ≡ true → is_open_for j r ≡ true)
    → open_count j (update (λ (x : Replacement). x.id) k f rs) ≤ open_count j rs
unfolding row update
count-update j k f [] r there opened = cc
count-update j k f (x ∷ rs) r there opened = elim (Bool-cases (x.id == k)) [
  | inl here ↦
      let there = rw here at there in
      let same : x ≡ r = cc in rw (here, same) (count-cons j (f r) r rs rs opened (count_refl j rs))
  | inr other ↦ rw other (
      count-cons j x x (update (λ (x : Replacement). x.id) k f rs) rs (λ h. h)
        (count-update j k f rs r (rw other at there) opened))
]

none-count :
    (k : Uuid) (rs : List Replacement) → find (is_open_for k) rs ≡ none → open_count k rs ≡ 0
unfolding open_count
none-count k [] h = refl
none-count k (r ∷ rs) h = elim (Bool-cases (is_open_for k r)) [
  | inl yes_it ↦ let h = rw yes_it at h in cc
  | inr no_it ↦ rw no_it (none-count k rs (rw no_it at h))
]

other-closed :
    (j k : Uuid) (r : Replacement) → r.order_id ≡ k → (k == j) ≡ false → is_open_for j r ≡ false
other-closed j k r e h = rw (e, h) refl

skip-count :
    (j : Uuid) (r : Replacement) (rs : List Replacement)
    → is_open_for j r ≡ false
    → open_count j (r ∷ rs) ≡ open_count j rs
unfolding open_count
skip-count j r rs h = rw h refl

one_more :
    (j : Uuid) (r : Replacement) (rs : List Replacement)
    → open_count j (r ∷ rs) ≤ 1 + open_count j rs
unfolding open_count
one_more j r rs = elim (Bool-cases (is_open_for j r)) [
  | inl a ↦ rw a (omega arith)
  | inr b ↦ rw b (omega arith)
]

-- A request enters only when its order has none that is open.
pub Entry-count :
    (k : Uuid) (xs ys : List Replacement) → Entry k xs ys → AtMostOneOpen xs → AtMostOneOpen ys
Entry-count k xs ys (unchanged q) h = rw q h
Entry-count k xs ys (entered r e first sound q) h = rw q λ j. elim (Bool-cases (k == j)) [
  | inl here ↦
      let none_open = none-count k xs first in
      let here = (==_iff k j).0 here in
      let more = one_more k r xs in rw (← here) (omega (arith, none_open, more))
  | inr other ↦ rw (skip-count j r xs (other-closed j k r e other)) (h j)
]
