-- ===== src/Core.antt =====
-- app/core: errors, text, signed values, media tokens and rate limits.
pub mod Errors
pub mod Security
pub mod Text
pub mod Decimal
pub mod Ratelimit
pub mod Limits
pub mod Cookies
pub mod Media
pub mod MediaTokens
