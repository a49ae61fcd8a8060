-- ===== src/Sui.antt =====
-- The single-node benchmark of codes/sui/modified/sui-single-node-benchmark/src.
pub mod Store
pub mod Checkpoints
pub mod Accounts
pub mod Effects
pub mod Node
pub mod Context
pub mod Preparations
pub mod MoveTx
pub mod Kitty
pub mod Genesis
pub mod Generator
pub mod Memory
pub mod Consensus
pub mod Driver
mod Tests
