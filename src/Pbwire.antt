-- ===== src/Pbwire.antt =====
-- internal/android/pbwire: the hand-written proto3 codec of the Android agent's messages.
-- A byte slice or a Go string is the list of its bytes, a uint64 a number below 2 ^ 64, and a
-- float64 the number whose bits `math.Float64bits` returns.
pub mod Result
pub mod Encode
pub mod Decode
pub mod Varint
pub mod Fields
pub mod Takes
pub mod Tokens
pub mod Loop
pub mod Scalars
pub mod Double
pub mod Messages
pub mod RoundTrip
pub mod Robust
mod Examples
