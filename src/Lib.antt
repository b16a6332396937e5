-- ===== src/Lib.antt =====
-- A verification library for the VybeKart backend, a shop for live video streams (NestJS, Prisma,
-- Redis). Sellers go live with a list of products; buyers fill a cart from one stream, pay through
-- Razorpay, and the seller packs the order on video and hands it to the carrier Delhivery.
--
-- Services are actions: a method takes the state of all stores (Data.World: the tables of
-- prisma/schema.prisma and the keys in Redis) and returns its result or the HTTP exception it
-- throws, with the state it leaves (Shared/Action). A write that happens before a throw stays, unless
-- it stands in a transaction. One request runs at a time. The state also lists the refunds that were
-- asked of the gateway, which no table shows.
--
-- - Shared: tests, lists, integers, texts, actions; Json: JSON values as columns store them.
-- - Variants (src/products/product-variants.util.ts): the variants of a product as a JSON column.
--   Parse, Write and Validate are parseVariantOptions, parseVariantItems and
--   validateAndNormalizeSellerVariants; Stock is applyVariantStockDelta, findVariantItem and
--   productHasVariantItems. The other modules are proofs.
-- - Data: the stores. Data/Table has the queries by key, Data/Writes what an action does to a table.
-- - Ratings (src/ratings/ratings.service.ts): Buyer and Seller have the ratings with their penalties
--   and corrections, Reward the days of live streaming and the waiver of the commission. Orders call
--   it on delivery, replacements on a new request.
-- - Orders (src/orders/orders.service.ts): Lookup has the checks that the handlers share, Seller has
--   acceptOrder, shipOrder and deliverOrder, Buyer has cancelOrder and returnOrder, Packing has
--   uploadPackingVideo and requestDeliveryFromPartner, Tracking has getOrderDeliveryStatus with the
--   carrier of src/orders/mock-delivery.service.ts, Validate and Create have validateOrderItems and
--   create, Stock the loops over the lines. Orders/Status is about the status of an order.
-- - Cart: the cart of orders.service.ts in Redis (Redis), its expiry after the stream and the hourly
--   sweep (Expiry), its edits (Edit) and getCart (View).
-- - Checkout: validateCartForCheckout and resolveShippingAddressOrThrow (Ready),
--   getDeliveryQuoteFromCart and prepareCheckoutForPayment (Quote), checkoutFromCart (Place).
-- - Replacements (src/replacements/replacements.service.ts): Rules has the prices and the checks,
--   Request createForOrder and getVariantOptionsForOrder, Decide decide and markBalancePaid, Fulfil
--   uploadPackingVideo and requestDeliveryFromPartner, Track getDeliveryStatus and deliver.
--   Replacements/Status is about the status of a request.
-- - Timelines: the steps, next actions and offers that src/orders/seller-order.mapper.ts,
--   src/orders/buyer-order.mapper.ts and src/replacements/replacement.mapper.ts show.
-- - Payments (src/payments/payments.service.ts): createRazorpayOrder (Collect), verifyAndCheckout
--   (Verify), with the signature and the refund (Gateway); createReplacementBalanceOrder and
--   verifyReplacementBalancePayment (Balance).
-- - Examples: a shop with two users, and runs in it.
--
-- Money is in hundredths of a rupee, stars are in hundredths for buyers and in three-hundredths for
-- sellers (an average of three; a rating with more decimals is not represented), and times are in
-- milliseconds. Money and times are natural numbers; stars and stock are integers, since the code
-- subtracts from them. Infinite numbers of JavaScript are not represented. Ids are numbers, which the
-- code only compares. Loops are structural recursion on lists, so no fuel is used.
-- The carrier, the gateway and JavaScript's conversions of odd JSON values are parameters
-- (Orders/Carrier, Payments/Gateway, Json): nothing is assumed about what they answer.
--
-- Not modelled: what is only read or formatted for a page, e-mail and push messages, logging,
-- authentication and the guards of the framework, live video, and failures of the database
-- itself. The address that formatAddressLine joins stands as one text in the table of addresses.
pub mod Shared
pub mod Json
pub mod Variants
pub mod Data
pub mod Ratings
pub mod Orders
pub mod Cart
pub mod Checkout
pub mod Replacements
pub mod Timelines
pub mod Payments
pub mod Examples
