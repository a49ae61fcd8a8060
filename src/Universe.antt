-- ===== src/Universe.antt =====
-- The account universe of codes/aptos/modified/e2e-tests/src/account_universe.rs and
-- account_universe/{universe,peer_to_peer}.rs: accounts, the picker, and the expected outcome of
-- transfers.
pub mod Account
pub mod Picker
pub mod Population
pub mod Transfer
pub mod Balances
pub mod Assertions
mod Tests
