-- ===== src/Orders.antt =====
-- Orders (src/orders/orders.service.ts): what sellers and buyers do with an order once it is
-- placed, how one is placed from a list of items, and the stock that this moves.
pub mod Lookup
pub mod Status
pub mod Seller
pub mod Pin
pub mod Carrier
pub mod Packing
pub mod Tracking
pub mod Stock
pub mod Buyer
pub mod Validate
pub mod Create
