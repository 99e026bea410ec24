-- ===== src/Grpcwire.antt =====
-- internal/android/grpcwire: the gRPC framing, status and call layer over HTTP/2.
pub mod Message
pub mod Percent
pub mod Status
pub mod Framing
pub mod Whole
pub mod Call
mod Examples
