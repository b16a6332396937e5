-- ===== src/Replacements/Status/Steps.antt =====
-- The look-ups and the write that the handlers share, as far as the table of requests goes.
use vybekart_backend.Shared.{
  ◌≡◌, refl, false, Option, none, some, not, Bool-cases, inl, inr, ◌==◌, ltb, ◌&&◌,
}
use vybekart_backend.Shared.Action.{Action, internal, required}
use vybekart_backend.Shared.Reads.{
  Reads, failed, found, Reads-bind, require_read-Reads, throw_if-Reads,
}
use vybekart_backend.Data.Writes.{wrote, StillOn}
use vybekart_backend.Data.{World, Uuid, Seller}
use vybekart_backend.Data.Replacements.{Replacement, ReplacementStatus, awaiting_payment}
use vybekart_backend.Orders.Status.Handlers.{not-false}
use vybekart_backend.Replacements.Rules.{
  status_eq, is_paid, replacement_row, if_sold_by, if_bought_by, find_replacement,
  seller_replacement, update_replacement, assert_seller_can_fulfill,
}
use vybekart_backend.Replacements.Status.{Outcome, Legal, status_eq-same}

-- An action that leaves the requests alone.
abbrev pub Still : {A : Type 0} → Action World A → Type 0
Still m = StillOn (λ v. v.replacements) m

-- What the guard `if (r.status !== s) throw` leaves.
pub is_status :
    (r : Replacement) (s : ReplacementStatus) → not (status_eq r.status s) ≡ false → r.status ≡ s
is_status r s h = status_eq-same r.status s (not-false _ h)

pub sold_by-row :
    (s : Uuid) (o : Option Replacement) (r : Replacement) → if_sold_by s o ≡ some r → o ≡ some r
sold_by-row s none r h = cc
sold_by-row s (some q) r h = elim (Bool-cases (q.seller_id == s)) [
  | inl own ↦ rw own at h
  | inr other ↦ let h = rw other at h in cc
]

pub bought_by-row :
    (b : Uuid) (o : Option Replacement) (r : Replacement) → if_bought_by b o ≡ some r → o ≡ some r
bought_by-row b none r h = cc
bought_by-row b (some q) r h = elim (Bool-cases (q.buyer_id == b)) [
  | inl own ↦ rw own at h
  | inr other ↦ let h = rw other at h in cc
]

pub find_replacement-Reads :
    (k : Uuid) (w : World) → Reads w (λ r. replacement_row k w ≡ some r) (find_replacement k)
unfolding find_replacement
find_replacement-Reads k w = require_read-Reads w (replacement_row k) _

pub seller_replacement-Reads :
    (k : Uuid) (s : Seller) (w : World)
    → Reads w (λ r. replacement_row k w ≡ some r) (seller_replacement k s)
unfolding seller_replacement
seller_replacement-Reads k s w =
    elim (require_read-Reads w (λ v. if_sold_by s.id (replacement_row k v)) _) [
      | failed x h ↦ failed x h
      | found r p h ↦ found r (sold_by-row s.id _ r p) h
    ]

pub assert_seller_can_fulfill-Reads :
    (r : Replacement) (w : World)
    → Reads w
        (λ _. (ltb 0 r.balance_due && not (is_paid r.balance_payment_status)) ≡ false)
        (assert_seller_can_fulfill r)
assert_seller_can_fulfill-Reads r w =
    Reads-bind (throw_if-Reads w (status_eq r.status awaiting_payment) _)
      λ _ _. throw_if-Reads w (ltb 0 r.balance_due && not (is_paid r.balance_payment_status)) _

-- The write leaves the table updated, whatever it returns.
pub update_replacement-Outcome :
    (k : Uuid) (f : Replacement → Replacement) (w : World) (r : Replacement)
    → replacement_row k w ≡ some r
    → Legal r (f r)
    → ((x : Replacement) → (f x).id ≡ x.id)
    → Outcome k w (update_replacement k f)
unfolding update_replacement
update_replacement-Outcome k f w r there legal same = wrote f r there legal same (by_row _ _)
  where
    by_row :
        (o : Option Replacement) (t : World)
        → (required o internal t).1.replacements ≡ t.replacements
    by_row none t = refl
    by_row (some o) t = refl
