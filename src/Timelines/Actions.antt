-- ===== src/Timelines/Actions.antt =====
-- The next action that the seller's page of a replacement offers, against the handler.
use vybekart_backend.Shared.{◌≡◌, refl, Bool, true, false, not, ◌&&◌, some, if◌then◌else◌}
use vybekart_backend.Shared.Text.{Text}
use vybekart_backend.Shared.Runs.{Runs}
use vybekart_backend.Data.{World, Uuid, Seller}
use vybekart_backend.Data.Replacements.{
  Replacement, ReplacementStatus, requested, pending_admin_review, awaiting_payment, approved,
  rejected, packed, shipped, delivered,
}
use vybekart_backend.Orders.Lookup.{seller_row}
use vybekart_backend.Orders.Tracking.{is_delhivery}
use vybekart_backend.Replacements.Rules.{is_paid, replacement_row}
use vybekart_backend.Replacements.Fulfil.{upload_packing_video}
use vybekart_backend.Replacements.Status.{IsSound}
use vybekart_backend.Replacements.Status.Progress.{IsWritten, upload_packing_video-Runs}
use vybekart_backend.Timelines.{is_text}
use vybekart_backend.Timelines.Replacements.{
  NextAction, pack_video, request_delivery, track, no_action, seller_next_action,
}

never :
    (b : Bool) (x y : NextAction)
    → (x ≡ pack_video → ⊥)
    → (y ≡ pack_video → ⊥)
    → (if b then x else y) ≡ pack_video
    → ⊥
never true x y p q h = p h
never false x y p q h = q h

packs_only :
    (s : ReplacementStatus) (r : Replacement)
    → seller_next_action (record r { status = s }) ≡ pack_video
    → s ≡ approved
unfolding seller_next_action
packs_only requested r h = cc
packs_only pending_admin_review r h = cc
packs_only awaiting_payment r h =
    absurd
      (never (not (is_paid r.balance_payment_status)) no_action no_action (λ e. cc) (λ e. cc) h)
packs_only approved r h = refl
packs_only rejected r h = cc
packs_only packed r h = absurd (
    never (not (is_text r.tracking_id)) request_delivery
      (if is_text r.tracking_id && is_delhivery r.delivery_provider then track else no_action)
      (λ e. cc)
      (never (is_text r.tracking_id && is_delhivery r.delivery_provider) track no_action (λ e. cc)
        λ e. cc)
      h)
packs_only shipped r h = absurd (
    never (is_text r.tracking_id && is_delhivery r.delivery_provider) track no_action (λ e. cc)
      (λ e. cc) h)
packs_only delivered r h = cc

-- When the seller's page of a sound replacement request offers to record the packing video, the
-- upload by its seller returns, and the request is PACKED.
pub seller_next_action-Runs :
    (url : Text) (k u : Uuid) (w : World) (s : Seller) (r : Replacement)
    → seller_row u w ≡ some s
    → replacement_row k w ≡ some r
    → r.seller_id ≡ s.id
    → IsSound r
    → seller_next_action r ≡ pack_video
    → Runs (IsWritten k packed) w (upload_packing_video true url k u)
seller_next_action-Runs url k u w s r has_s there own sound offered =
    upload_packing_video-Runs url k u w s r has_s there own (packs_only r.status r offered) sound
