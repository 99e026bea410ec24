-- ===== src/Pbwire/Robust.antt =====
-- The decoders of internal/android/pbwire/messages.go on bytes that nobody has checked: they end,
-- they skip what they do not know, they refuse a known field of another shape, and what they
-- return fits its type.
pub mod Total
pub mod Unknown
pub mod Bounds
