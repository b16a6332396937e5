-- ===== src/Replacements/Status/Progress.antt =====
-- The steps of the seller go through: no check of theirs refuses a sound request in its status.
use vybekart_backend.Shared.{
  ◌≡◌, refl, sym, ap, ◌∙◌, Bool, true, false, not, ◌&&◌, Option, some, ltb, ==_iff, ==_refl,
}
use mathlib.Core.Path.{subst}
use vybekart_backend.Shared.Text.{Text}
use vybekart_backend.Shared.Action.{required, bad_request, forbidden, not_found, internal}
use vybekart_backend.Shared.Runs.{
  Runs, runs, Finds, Runs-after, gets-Finds, throw_if-Finds, read-Finds,
}
use vybekart_backend.Data.{World, Uuid, Seller}
use vybekart_backend.Data.Replacements.{
  Replacement, ReplacementStatus, approved, packed, awaiting_payment,
}
use vybekart_backend.Data.Table.{row, update, row-update}
use vybekart_backend.Orders.Lookup.{seller_row, find_seller}
use vybekart_backend.Replacements.Rules.{
  status_eq, is_paid, replacement_row, if_sold_by, seller_replacement, update_replacement,
  assert_seller_can_fulfill,
}
use vybekart_backend.Replacements.Fulfil.{as_packed, upload_packing_video}
use vybekart_backend.Replacements.Status.{IsCovered, free, covered, Papers, IsSound}

-- The table after a write to the request `k`.
unfoldable pub with_request : Uuid → (Replacement → Replacement) → World → World
with_request k f w = record w { replacements = update (λ r. r.id) k f w.replacements }

owes_nothing :
    (r : Replacement)
    → IsCovered r
    → (ltb 0 r.balance_due && not (is_paid r.balance_payment_status)) ≡ false
owes_nothing r (free a b c) = rw b refl
owes_nothing r (covered a) = rw a (and_false (ltb 0 r.balance_due))
  where
    and_false : (b : Bool) → (b && false) ≡ false
    and_false true = refl
    and_false false = refl

own-row :
    (s : Seller) (o : Option Replacement) (r : Replacement)
    → o ≡ some r
    → r.seller_id ≡ s.id
    → if_sold_by s.id o ≡ some r
own-row s o r there own = rw (there, (==_iff r.seller_id s.id).1 own) refl

row-written :
    (k : Uuid) (f : Replacement → Replacement) (w : World) (r : Replacement)
    → ((x : Replacement) → (f x).id ≡ x.id)
    → replacement_row k w ≡ some r
    → row (λ (x : Replacement). x.id) k (update (λ x. x.id) k f w.replacements) ≡ some (f r)
row-written k f w r keeps there =
    row-update (λ (x : Replacement). x.id) f keeps k k w.replacements ∙ rw (==_refl k, there) refl

-- The request is written, and what is returned is its row.
pub record IsWritten (k : Uuid) (s : ReplacementStatus) (a : Replacement) (t : World) : Type 0 where
  pub status : a.status ≡ s
  pub there : replacement_row k t ≡ some a

update-Runs :
    (k : Uuid) (f : Replacement → Replacement) (w : World) (r : Replacement) (s : ReplacementStatus)
    → ((x : Replacement) → (f x).id ≡ x.id)
    → (f r).status ≡ s
    → replacement_row k w ≡ some r
    → Runs (IsWritten k s) w (update_replacement k f)
unfolding update_replacement with_request
update-Runs k f w r s keeps e there =
    let written = row-written k f w r keeps there in
    runs (f r) (with_request k f w) (ap (λ o. required o internal (with_request k f w)) written)
      (record { status = e; there = written })

seller_replacement-Finds :
    (k : Uuid) (s : Seller) (w : World) (r : Replacement)
    → replacement_row k w ≡ some r
    → r.seller_id ≡ s.id
    → Finds w (λ x. x ≡ r) (seller_replacement k s)
unfolding seller_replacement
seller_replacement-Finds k s w r there own =
    read-Finds (λ v. if_sold_by s.id (replacement_row k v)) (not_found "Replacement not found") w r
      (own-row s (replacement_row k w) r there own)

can_fulfill-Finds :
    (r : Replacement) (w : World)
    → status_eq r.status awaiting_payment ≡ false
    → IsCovered r
    → Finds w (λ _. Unit {0}) (assert_seller_can_fulfill r)
can_fulfill-Finds r w waits paid =
    Runs-after
      (throw_if-Finds (status_eq r.status awaiting_payment)
        (bad_request "Waiting for buyer balance payment") w waits)
      λ _ _.
        throw_if-Finds (ltb 0 r.balance_due && not (is_paid r.balance_payment_status))
          (bad_request "Buyer has not paid the balance amount") w (owes_nothing r paid)

-- When the seller of a sound request that is APPROVED uploads a packing video, the call returns, and
-- the request is PACKED: no check on the balance refuses it.
pub upload_packing_video-Runs :
    (url : Text) (k u : Uuid) (w : World) (s : Seller) (r : Replacement)
    → seller_row u w ≡ some s
    → replacement_row k w ≡ some r
    → r.seller_id ≡ s.id
    → r.status ≡ approved
    → IsSound r
    → Runs (IsWritten k packed) w (upload_packing_video true url k u)
unfolding upload_packing_video find_seller
upload_packing_video-Runs url k u w s r has_s there own e sound =
    let (paid, _) = subst (λ t. Papers t r) e sound in
    Runs-after (throw_if-Finds false (bad_request "Video file is required") w refl) λ _ _.
      Runs-after (read-Finds (seller_row u) (forbidden "User is not a registered seller") w s has_s)
        λ x xs.
          Runs-after
            (seller_replacement-Finds k x w r there (own ∙ ap (λ (y : Seller). y.id) (sym xs)))
            λ q qr.
              let e = ap (λ (y : Replacement). y.status) qr ∙ e in
              Runs-after
                (throw_if-Finds (not (status_eq q.status approved))
                  (bad_request "Replacement must be approved before packing") w
                  (ap (λ t. not (status_eq t approved)) e))
                λ _ _.
                  Runs-after
                    (can_fulfill-Finds q w (ap (λ t. status_eq t awaiting_payment) e)
                      (subst IsCovered (sym qr) paid))
                    λ _ _.
                      Runs-after (gets-Finds (λ v. v.now) w)
                        λ now _. update-Runs k (as_packed now url) w r packed (λ x. refl) refl there
