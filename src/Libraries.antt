-- ===== src/Libraries.antt =====
-- What the crates call and do not implement: `sha2`, and the vendored crates/bitcoin-spv.
use btc_parachain.Prelude.{ℕ, ◌<◌, ◌≡◌, ◌^◌, List, [], ◌∷◌, length}

-- Byte strings are lists of numbers below 256.
abbrev pub AllBytes : List ℕ → Type 0
AllBytes [] = Unit
AllBytes (b ∷ bs) = (b < 256) × AllBytes bs

-- Byte strings are lists of numbers. The laws are the widths of the array types that the calls
-- return (`[u8; 32]`, `u32`), and what `reverse_endianness` is documented to do to a hash.
pub record Libraries : Type 0 where
  pub sha256 : List ℕ → List ℕ
  pub hash256_merkle_step : List ℕ → List ℕ → List ℕ
  pub extract_merkle_root_le : List ℕ → List ℕ
  pub extract_prev_block_hash_le : List ℕ → List ℕ
  pub extract_timestamp : List ℕ → ℕ
  -- a `BigUint`, of any size
  pub extract_target : List ℕ → ℕ
  pub extract_value : List ℕ → ℕ
  pub reverse_endianness : List ℕ → List ℕ
  pub sha256_width : (bs : List ℕ) → length (sha256 bs) ≡ 32
  pub merkle_step_width : (a b : List ℕ) → length (hash256_merkle_step a b) ≡ 32
  pub merkle_root_width : (h : List ℕ) → length (extract_merkle_root_le h) ≡ 32
  pub prev_block_hash_width : (h : List ℕ) → length (extract_prev_block_hash_le h) ≡ 32
  pub timestamp_width : (h : List ℕ) → extract_timestamp h < 2 ^ 32
  pub reverse_width : (bs : List ℕ) → length (reverse_endianness bs) ≡ length bs
  pub reverse_reverse : (bs : List ℕ) → reverse_endianness (reverse_endianness bs) ≡ bs
