-- ===== src/Variants.antt =====
-- Product variants (src/products/product-variants.util.ts): the JSON column `variants` of a
-- product, parsed, validated, searched and changed. Money is in hundredths of a rupee, a stock is
-- a whole number.
pub mod Parse
pub mod Write
pub mod Stock
pub mod RoundTrip
pub mod Options
pub mod Change
pub mod Delta
pub mod Validate
pub use Parse.{VariantOption, VariantItem, parse_options, parse_items}
