-- ===== src/Pbwire/Messages.antt =====
-- internal/android/pbwire/messages.go: a record for each message that has fields, with its
-- `Marshal`, the switch of its `Unmarshal`, and `Unmarshal` itself.
pub mod Device
pub mod Input
pub mod App
