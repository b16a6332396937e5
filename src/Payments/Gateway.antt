-- ===== src/Payments/Gateway.antt =====
-- The payment gateway, as the package `razorpay` and `crypto` present it: what they answer is a
-- parameter of the model.
use vybekart_backend.Shared.{ℕ, Bool, not, Option, ◌∷◌, if◌then◌else◌}
use vybekart_backend.Shared.Text.{Text, text_eq}
use vybekart_backend.Shared.Action.{
  Action, bad_request, service_unavailable, pure, modify, throw_if, ◌>>◌,
}
use vybekart_backend.Shared.Reads.{Reads, failed, found, throw_if-Reads, Reads-bind}
use vybekart_backend.Data.{World, Uuid}
use vybekart_backend.Data.Carts.{RefundStatus, refunded, refund_failed}

-- `configured` says that the client was built, `has_secret` that RAZORPAY_KEY_SECRET is set;
-- `signed` is the HMAC of an order and a payment id under that secret; `create_order` is the id of a
-- new order for an amount; `refund` tells whether a refund goes through.
pub record Gateway : Type 0 where
  pub configured : Bool
  pub has_secret : Bool
  pub signed : Uuid → Uuid → Text
  pub create_order : ℕ → Option Uuid
  pub refund : Uuid → ℕ → Bool

-- `verifySignature`
unfoldable pub verify_signature : Gateway → Uuid → Uuid → Text → Action World (Unit {0})
verify_signature g order payment signature = do
  throw_if (not g.has_secret) (service_unavailable "Payments not configured")
  throw_if (not (text_eq (g.signed order payment) signature))
      (bad_request "Invalid payment signature")

-- The call of `razorpay.payments.refund`, whether it goes through or throws.
abbrev pub ask_refund : Gateway → Uuid → ℕ → Action World RefundStatus
ask_refund g payment amount = do
  modify (λ w. record w {
    refunds = record { razorpay_payment_id = payment; amount_paise = amount } ∷ w.refunds;
  })
  pure (if g.refund payment amount then refunded else refund_failed)

-- `attemptRefund`
abbrev pub attempt_refund : Gateway → Uuid → ℕ → Action World RefundStatus
attempt_refund g payment amount =
    if g.configured then ask_refund g payment amount else pure refund_failed

pub verify_signature-Reads :
    (g : Gateway) (order payment : Uuid) (signature : Text) (w : World)
    → Reads w (λ _. Unit {0}) (verify_signature g order payment signature)
unfolding verify_signature
verify_signature-Reads g order payment signature w =
    Reads-bind (throw_if-Reads w (not g.has_secret) (service_unavailable "Payments not configured"))
      λ _ _. unit_read (
        throw_if-Reads w (not (text_eq (g.signed order payment) signature))
          (bad_request "Invalid payment signature"))
  where
    unit_read :
        {P : Unit {0} → Type 0} {m : Action World (Unit {0})}
        → Reads w P m
        → Reads w (λ _. Unit {0}) m
    unit_read (failed e h) = failed e h
    unit_read (found a p h) = found a tt h
