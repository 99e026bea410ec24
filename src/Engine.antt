-- ===== src/Engine.antt =====
-- internal/engine: its errors and failures, its loops and waits, and the results of its commands.
pub mod Errors
pub mod Failures
pub mod Composite
pub mod Retry
pub mod Repeat
pub mod Polling
pub mod Settle
pub mod Stability
pub mod Lookup
pub mod Commands
pub mod Results
pub mod Sealing
pub mod Ledger
pub mod Dispatcher
