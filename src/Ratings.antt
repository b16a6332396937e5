-- ===== src/Ratings.antt =====
-- Ratings and rewards (src/ratings/ratings.service.ts): the ratings of buyers and sellers, what
-- requests for replacement take from them, and the waiver of the commission for days of streaming.
pub mod Buyer
pub mod Seller
pub mod Reward
pub mod Effects
pub mod Bounds
