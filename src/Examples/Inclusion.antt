-- ===== src/Examples/Inclusion.antt =====
-- Examples of `verify_transaction_inclusion` and of merkle proofs.
use btc_parachain.Prelude.{◌≡◌, ◌≤◌, ◌<◌, refl, [], ◌∷◌, true, false, arith, eq_bytes}
use mathlib.Core.List.{flatten}
use btc_parachain.Prelude.Words.{add32, from_le_bytes}
use btc_parachain.Prelude.Result.{ok, err}
use btc_parachain.BtcCore.{dispatch_error, ongoing_fork}
use btc_parachain.Bitcoin.Hash.{eq}
use btc_parachain.Bitcoin.Header.{
  header_from_bytes, parse_block_header, parse_header, extract_nonce, extract_version,
  extract_target, extract_timestamp, extract_merkle_root, extract_previous_block_hash,
}
use btc_parachain.Bitcoin.Bytes.{
  parse, parse_uint, parse_compact_uint, parse_compact, parse_h256, parse_flag_bits, parse_items,
}
use btc_parachain.Bitcoin.Merkle.Parse.{parse_proof}
use btc_parachain.Relay.Confirmations.{check_confirmations}
use btc_parachain.Relay.Dispatch.{signed_by, verify_merkle_proof, verify_transaction_inclusion}
use btc_parachain.Relay.Dispatch.Inclusion.{IsIncluded, verify_transaction_inclusion-IsIncluded}
use btc_parachain.Relay.Dispatch.NoFork.{verify_transaction_inclusion_no_fork}
use btc_parachain.Relay.Storage.{Storage}
use btc_parachain.Bitcoin.Merkle.{
  MerkleProof, ProofResult, verify_proof, traverse_and_extract, compute_tree_height,
  compute_tree_width, tree_height_loop, take_hash, merkle_step,
}
use btc_parachain.Bitcoin.Merkle.Inclusion.{Includes, verify_proof-Includes}
use btc_parachain.Examples.Data.{toy, hash_of, header_on, two_chains, raw_proof}

abbrev second_of_two : MerkleProof
second_of_two = record {
  block_header = header_on 0;
  transactions_count = 2;
  hashes = hash_of 8 ∷ hash_of 9 ∷ [];
  flag_bits = true ∷ false ∷ true ∷ [];
}

abbrev its_result : ProofResult
its_result = record {
  extracted_root = hash_of 9;
  transaction_hash = hash_of 9;
  transaction_position = 1;
}

second_of_two_verified : verify_proof toy second_of_two ≡ ok its_result
unfolding verify_proof traverse_and_extract compute_tree_height compute_tree_width tree_height_loop
    take_hash merkle_step
second_of_two_verified = refl

verify_proof-Includes_example :
    (0 < 2)
    × (2 ≤ 16666)
    × (1 < 2)
    × Includes toy (compute_tree_height second_of_two) 0 (hash_of 9) 1 (hash_of 9)
verify_proof-Includes_example =
    verify_proof-Includes toy second_of_two its_result second_of_two_verified

second_of_two_included :
    (verify_transaction_inclusion toy (signed_by 1) (hash_of 9) 100 raw_proof 6 false two_chains).0
    ≡ ok tt
unfolding verify_transaction_inclusion verify_merkle_proof check_confirmations parse_proof parse
    parse_header parse_uint parse_compact parse_compact_uint parse_h256 parse_flag_bits parse_items
    header_from_bytes parse_block_header extract_nonce extract_version extract_target
    extract_timestamp extract_merkle_root extract_previous_block_hash verify_proof
    traverse_and_extract compute_tree_height compute_tree_width tree_height_loop take_hash
    merkle_step eq from_le_bytes flatten eq_bytes
second_of_two_included = refl

verify_transaction_inclusion-IsIncluded_example :
    IsIncluded toy two_chains (hash_of 9) 100 raw_proof
    × (add32 100 6 ≤ 106)
    × (check_confirmations 106 6 100 false ≡ ok tt)
verify_transaction_inclusion-IsIncluded_example =
    verify_transaction_inclusion-IsIncluded toy (signed_by 1) (hash_of 9) 100 raw_proof 6 false
      two_chains second_of_two_included

abbrev one_chain : Storage
one_chain = record two_chains { chains = (0, 0) ∷ [] }

verify_transaction_inclusion_no_fork_example :
    verify_transaction_inclusion toy (signed_by 1) (hash_of 9) 100 raw_proof 6 false one_chain
    ≡ (err (dispatch_error ongoing_fork), one_chain)
verify_transaction_inclusion_no_fork_example =
    verify_transaction_inclusion_no_fork toy 1 (hash_of 9) 100 raw_proof 6 false one_chain refl refl
      (omega arith)
