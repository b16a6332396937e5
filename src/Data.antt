-- ===== src/Data.antt =====
-- The stores that the services share: the tables of prisma/schema.prisma and the keys in Redis, as
-- far as the modelled code reads or writes them. Ids are opaque and only compared, so an id is a
-- number, and an id that is absent or the empty text is `none`. Money is in hundredths of a rupee,
-- times are in milliseconds.
pub mod Table
pub mod People
pub mod Orders
pub mod Carts
pub mod Replacements
pub mod Ratings
pub mod Writes
pub use People.*
use vybekart_backend.Shared.{ℕ, List}
use vybekart_backend.Data.Orders.{Order, MockShipment}
use vybekart_backend.Data.Carts.{
  CartEntry, Holder, PendingPayment, CheckoutFailure, PendingBalance, RefundCall,
}
use vybekart_backend.Data.Replacements.{Replacement}
use vybekart_backend.Data.Ratings.{RatingOverride, LiveDay}

-- One request runs at one time, `now`. New rows take their id from `fresh`. Besides the stores, the
-- state has the calls that asked the payment gateway for a refund, the latest first.
pub record World : Type 0 where
  pub now : ℕ
  pub fresh : ℕ
  pub users : List User
  pub buyers : List Buyer
  pub sellers : List Seller
  pub addresses : List Address
  pub streams : List Stream
  pub products : List Product
  pub orders : List Order
  pub buyer_ratings : List BuyerRating
  pub seller_ratings : List SellerRating
  pub rating_logs : List RatingOverride
  pub live_days : List LiveDay
  pub replacements : List Replacement
  pub failures : List CheckoutFailure
  pub carts : List CartEntry
  pub holders : List Holder
  pub pendings : List PendingPayment
  pub balances : List PendingBalance
  pub shipments : List MockShipment
  pub refunds : List RefundCall
