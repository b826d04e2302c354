-- ===== src/Examples.antt =====
-- The theorems at concrete inputs, and the data that they use.
pub mod Data
pub mod Inclusion
pub mod Chains
pub mod Order
pub mod Header
pub mod Headers
pub mod Bitcoin
pub mod Submission
pub mod History
pub mod Listed
pub mod Swaps
pub mod Honest
pub mod Written
pub mod Orphans
pub mod Stale
pub mod Node
