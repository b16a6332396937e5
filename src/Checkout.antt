-- ===== src/Checkout.antt =====
-- From a cart to an order (the checkout of src/orders/orders.service.ts): what is checked before a
-- payment starts and again when the order is placed, the delivery quote, and the placing.
pub mod Ready
pub mod Quote
pub mod Place
