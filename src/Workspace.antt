-- ===== src/Workspace.antt =====
-- internal/workspace/planner.go: from the operator's roots to the ordered flows of a run.
pub mod Select
pub mod Order
pub mod Discover
pub mod Narrowing
pub mod Permutation
pub mod Ordering
pub mod Planning
mod Examples
