-- ===== src/Pbwire/RoundTrip.antt =====
-- What `Marshal` of internal/android/pbwire/messages.go writes, `Unmarshal` reads back.
pub mod Device
pub mod Input
pub mod App
pub mod Flat
