-- ===== src/Block.antt =====
-- The block executor, codes/aptos/modified/block-executor/src/executor.rs.
pub mod Status
pub mod Environment
pub mod Delayed
pub mod Sequential
pub mod Entry
pub mod Parallel
mod Tests
