-- ===== src/Bitcoin/Merkle.antt =====
-- crates/bitcoin/src/merkle.rs: partial merkle trees and the check of a proof. Positions and
-- heights are `u32`, which wraps; the shifts of the release build use the low five bits of a count.
pub mod Parse
pub mod Raw
pub mod Honest
pub mod Block
pub mod BlockProof
pub mod Width
pub mod Steps
pub mod Inclusion
pub mod Partial
pub mod Completeness
use btc_parachain.Prelude.{
  ℕ, zero, suc, ◌+◌, ◌-◌, ◌*◌, ◌/◌, ◌%◌, ◌^◌, Bool, true, false, not, ◌&&◌, Option, some, none,
  List, length, leb, ltb, ◌==◌, if◌then◌else◌,
}
use btc_parachain.Prelude.Words.{add32, sub32}
use btc_parachain.Prelude.Result.{Result, ok, err, index, fail_if, ok_or, ◌>>=◌, ◌>>◌}
use btc_parachain.Libraries.{Libraries}
use btc_parachain.Bitcoin.Types.{Error, malformed_proof, invalid_proof, BlockHeader}
use btc_parachain.Bitcoin.Hash
use btc_parachain.Bitcoin.Hash.{H256Le}

abbrev pub max_block_weight : ℕ
max_block_weight = 4000000

abbrev pub witness_scale_factor : ℕ
witness_scale_factor = 4

abbrev pub min_transaction_weight : ℕ
min_transaction_weight = witness_scale_factor * 60

abbrev pub max_transactions_in_proof : ℕ
max_transactions_in_proof = max_block_weight / min_transaction_weight

pub record MerkleProof : Type 0 where
  pub block_header : BlockHeader
  pub transactions_count : ℕ
  pub hashes : List H256Le
  pub flag_bits : List Bool

pub record MerkleProofTraversal : Type 0 where
  pub bits_used : ℕ
  pub hashes_used : ℕ
  pub merkle_position : Option ℕ
  pub hash_position : Option ℕ

pub record ProofResult : Type 0 where
  pub extracted_root : H256Le
  pub transaction_hash : H256Le
  pub transaction_position : ℕ

-- `(self.transactions_count + (1 << height) - 1) >> height`
unfoldable pub compute_tree_width : MerkleProof → ℕ → ℕ
compute_tree_width p height =
    sub32 (add32 p.transactions_count (2 ^ (height % 32))) 1 / 2 ^ (height % 32)

-- The `while` loop, with fuel.
unfoldable pub tree_height_loop : MerkleProof → ℕ → ℕ → ℕ
tree_height_loop p zero height = height
tree_height_loop p (suc fuel) height = elim (ltb 1 (compute_tree_width p height)) [
  | true ↦ tree_height_loop p fuel (add32 height 1)
  | false ↦ height
]

unfoldable pub compute_tree_height : MerkleProof → ℕ
unfolding tree_height_loop compute_tree_width
compute_tree_height p = tree_height_loop p 32 0

-- The branch that consumes a hash; `matched` is `height == 0 && parent_of_hash`.
unfoldable pub take_hash :
    MerkleProof → Bool → ℕ → MerkleProofTraversal → Result Error (H256Le × MerkleProofTraversal)
take_hash p matched pos t = do
  fail_if (leb (length p.hashes) t.hashes_used) malformed_proof
  hash ← index p.hashes t.hashes_used
  ok (
    hash,
    record {
      bits_used = t.bits_used;
      hashes_used = t.hashes_used + 1;
      merkle_position = if matched then some pos else t.merkle_position;
      hash_position = if matched then some t.hashes_used else t.hash_position;
    },
  )

module _ (lib : Libraries) (p : MerkleProof) where
  -- `H256Le::from_bytes_le(&hash256_merkle_step(..))`
  unfoldable pub merkle_step : H256Le → H256Le → Result Error H256Le
  merkle_step left right =
      Hash.from_bytes_le (lib.hash256_merkle_step (Hash.to_bytes_le left) (Hash.to_bytes_le right))

  unfoldable pub traverse_and_extract :
      ℕ → ℕ → MerkleProofTraversal → Result Error (H256Le × MerkleProofTraversal)
  unfolding take_hash merkle_step
  traverse_and_extract zero pos t = do
    parent_of_hash ← index p.flag_bits t.bits_used
    take_hash p parent_of_hash pos (record t { bits_used = t.bits_used + 1 })
  traverse_and_extract (suc height) pos t = do
    parent_of_hash ← index p.flag_bits t.bits_used
    elim parent_of_hash [
      | false ↦ take_hash p false pos (record t { bits_used = t.bits_used + 1 })
      | true ↦ do
        (left, t₁) ←
            traverse_and_extract height (pos * 2 % 2 ^ 32)
              (record t { bits_used = t.bits_used + 1 })
        (right, t₂) ← (elim (ltb (add32 (pos * 2 % 2 ^ 32) 1) (compute_tree_width p height)) [
          | true ↦ traverse_and_extract height (add32 (pos * 2 % 2 ^ 32) 1) t₁
          | false ↦ ok (left, t₁)
        ])
        hash ← merkle_step left right
        ok (hash, t₂)
    ]

abbrev pub start : MerkleProofTraversal
start = record { bits_used = 0; hashes_used = 0; merkle_position = none; hash_position = none }

unfoldable pub verify_proof : Libraries → MerkleProof → Result Error ProofResult
verify_proof lib p = do
  fail_if (p.transactions_count == 0) malformed_proof
  fail_if (ltb max_transactions_in_proof p.transactions_count) malformed_proof
  fail_if (ltb (length p.flag_bits) (length p.hashes)) malformed_proof
  (root, t) ← traverse_and_extract lib p (compute_tree_height p) 0 start
  merkle_position ← ok_or invalid_proof t.merkle_position
  hash_position ← ok_or invalid_proof t.hash_position
  fail_if (not (t.hashes_used == length p.hashes)) malformed_proof
  fail_if (not ((t.bits_used + 7) / 8 == (length p.flag_bits + 7) / 8)) malformed_proof
  transaction_hash ← index p.hashes hash_position
  ok (record {
    extracted_root = root;
    transaction_hash = transaction_hash;
    transaction_position = merkle_position;
  })
