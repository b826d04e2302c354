-- ===== src/Examples/Headers.antt =====
-- Examples of the checks of headers and of confirmations, and of the height of merkle trees.
use btc_parachain.Prelude.{
  ℕ, ◌-◌, ◌*◌, ◌^◌, ◌≤◌, ◌<◌, ◌≡◌, refl, [], ◌∷◌, false, some, arith, eq_bytes,
}
use btc_parachain.Prelude.Words.{from_le_bytes}
use btc_parachain.Prelude.Result.{ok, err}
use btc_parachain.BtcCore.{insufficient_stable_confirmations}
use btc_parachain.Bitcoin.Types.{BlockHeader, RichBlockHeader}
use btc_parachain.Bitcoin.Hash.{zero, eq, as_u256, sha256d_le, sha256d}
use btc_parachain.Bitcoin.Header.{
  parse_block_header, extract_nonce, extract_version, extract_target, extract_timestamp,
  extract_merkle_root, extract_previous_block_hash,
}
use btc_parachain.Bitcoin.Merkle.{MerkleProof, compute_tree_height}
use btc_parachain.Bitcoin.Merkle.Width.{compute_tree_height_least}
use btc_parachain.Relay.Storage.{Storage, put_chain}
use btc_parachain.Relay.Headers.{
  verify_block_header, compute_new_target, expected_target, unrounded_max_target,
}
use btc_parachain.Relay.Headers.Acceptance.{IsAcceptable, verify_block_header_iff}
use btc_parachain.Relay.Headers.Target.{compute_new_target_lem, compute_new_target_uncapped}
use btc_parachain.Relay.Confirmations.{check_confirmations}
use btc_parachain.Relay.Confirmations.Depth.{check_confirmations_lem, check_confirmations_wraps}
use btc_parachain.Examples.Data.{
  toy, raw_header, hash_of, header_on, block_at, main, stored_chain, two_chains,
}

abbrev new_header : BlockHeader
new_header = record {
  merkle_root = zero;
  target = 2 ^ 223;
  timestamp = 0;
  version = 0;
  hash_prev_block = hash_of 106;
  nonce = 0;
}

new_header_accepted : verify_block_header toy raw_header two_chains ≡ ok new_header
unfolding verify_block_header parse_block_header extract_nonce extract_version extract_target
    extract_timestamp extract_merkle_root extract_previous_block_hash eq as_u256 sha256d_le sha256d
    from_le_bytes expected_target eq_bytes
new_header_accepted = refl

verify_block_header_iff_example : IsAcceptable toy raw_header two_chains new_header
verify_block_header_iff_example =
    (verify_block_header_iff toy raw_header two_chains new_header).0 new_header_accepted

-- The block 2016 before the next retarget, found three weeks earlier.
abbrev retarget_chain : Storage
retarget_chain = record two_chains {
  chains_index = put_chain 0 (some (record main { chain = (2016, hash_of 100) ∷ [] })) stored_chain;
}

abbrev before_retarget : RichBlockHeader
before_retarget = record (block_at 106) {
  block_height = 4031;
  block_header = record (header_on 105) { timestamp = 1501814400 };
}

compute_new_target_lem_example :
    compute_new_target before_retarget 4032 retarget_chain ≡ ok (2 ^ 223 * 4)
compute_new_target_lem_example =
    compute_new_target_lem before_retarget 4032 retarget_chain (hash_of 100) (block_at 100) refl
      refl (omega arith)

compute_new_target_uncapped_example :
    (t : ℕ) × (compute_new_target before_retarget 4032 retarget_chain ≡ ok t)
    × (unrounded_max_target < t)
compute_new_target_uncapped_example =
    compute_new_target_uncapped before_retarget 4032 retarget_chain (hash_of 100) (block_at 100)
      refl refl (omega arith) (omega arith) (omega arith)

check_confirmations_lem_example :
    check_confirmations 106 2 101 false ≡ err insufficient_stable_confirmations
check_confirmations_lem_example = check_confirmations_lem 106 2 101 false (omega arith)

check_confirmations_wraps_example : check_confirmations 106 (2 ^ 32 - 1) 106 false ≡ ok tt
check_confirmations_wraps_example =
    check_confirmations_wraps 106 106 false (omega arith) (omega arith) (omega arith)

abbrev of_five : MerkleProof
of_five = record { block_header = new_header; transactions_count = 5; hashes = []; flag_bits = [] }

compute_tree_height_least_example :
    (5 ≤ 2 ^ compute_tree_height of_five)
    × (compute_tree_height of_five ≤ 15)
    × ((k : ℕ) → k < compute_tree_height of_five → 2 ^ k < 5)
compute_tree_height_least_example = compute_tree_height_least of_five (omega arith)
