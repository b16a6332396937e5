-- ===== src/Cart.antt =====
-- The buyer's cart in Redis (src/orders/orders.service.ts, and the sweep of
-- src/orders/cart-expiry-sweep.service.ts): its expiry after a live stream, its edits, its view.
pub mod Redis
pub mod Expiry
pub mod View
pub mod Totals
pub mod Lines
pub mod Edit
