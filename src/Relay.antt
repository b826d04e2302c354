-- ===== src/Relay.antt =====
-- crates/btc-relay: the store of Bitcoin headers, its forks, and the checks of transactions.
pub mod Storage
pub mod Chains
pub mod Headers
pub mod Confirmations
pub mod Order
pub mod Reorg
pub mod Flags
pub mod Dispatch
pub mod History
