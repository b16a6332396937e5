-- ===== src/Replacements.antt =====
-- Replacement requests (src/replacements/replacements.service.ts): a buyer asks for a replacement
-- of a delivered order's line, it is approved by score or by an admin, a dearer variant is paid for,
-- and the seller packs and ships it.
pub mod Rules
pub mod Request
pub mod Decide
pub mod Fulfil
pub mod Track
pub mod Status
