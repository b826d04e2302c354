-- ===== src/Bitcoin.antt =====
-- crates/bitcoin: the types, the parser, the scripts and the merkle proofs.
pub mod Hash
pub mod Types
pub mod Bytes
pub mod Header
pub mod Hex
pub mod Script
pub mod Tx
pub mod Merkle
