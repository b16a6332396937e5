-- ===== src/Payments.antt =====
-- Payments (src/payments/payments.service.ts): the order with the payment gateway, and the
-- verification that turns a payment into an order, or else into a refund.
pub mod Gateway
pub mod Collect
pub mod Verify
pub mod Balance
pub mod Settled
