-- ===== src/Examples/History.antt =====
-- Examples of sequences of calls: a relay that starts at height 100 and stores eight headers in a row.
-- Every second one of the first six starts a fork, and the last but one replaces the main chain.
use btc_parachain.Prelude.{
  ℕ, ◌≡◌, ◌-◌, ◌⊎◌, refl, [], ◌∷◌, ◌++◌, List, take, replicate, eq_bytes, true,
}
use mathlib.Core.List.{flatten}
use btc_parachain.Prelude.Words.{from_le_bytes}
use btc_parachain.Prelude.Result.{ok}
use btc_parachain.Bitcoin.Hash.{H256Le, eq, as_u256, sha256d, sha256d_le}
use btc_parachain.Bitcoin.Header.{
  header_from_bytes, parse_block_header, parse_header, extract_nonce, extract_version,
  extract_target, extract_timestamp, extract_merkle_root, extract_previous_block_hash,
}
use btc_parachain.Bitcoin.Bytes.{
  parse, parse_uint, parse_compact_uint, parse_compact, parse_h256, parse_flag_bits, parse_items,
}
use btc_parachain.Bitcoin.Merkle.{
  verify_proof, traverse_and_extract, compute_tree_height, compute_tree_width, tree_height_loop,
  take_hash, merkle_step,
}
use btc_parachain.Bitcoin.Merkle.Parse.{parse_proof}
use btc_parachain.Relay.Confirmations.{check_confirmations}
use btc_parachain.Containers.LinkedMap.{insert, swap}
use btc_parachain.Relay.Storage.{
  Storage, increment_chain_counter, find_position, remove_blockchain_from_chain,
}
use btc_parachain.Relay.Chains.{
  initialize_blockchain, generate_blockchain, create_blockchain, extend_blockchain,
}
use btc_parachain.Relay.Order.{insert_sorted, find_slot, shift_loop, sort_by_key, insert_by_key}
use btc_parachain.Relay.Reorg.{
  check_and_do_reorg, reorg_loop, reorg_main, swap_main_blockchain, joined_chain, set_chain_refs,
  forked_main_chain,
}
use btc_parachain.Relay.Headers.{verify_block_header, expected_target}
use btc_parachain.Relay.Dispatch.{
  signed_by, initialize, store_block_header, store_verified_header, next_blockchain,
  store_blockchain, verify_merkle_proof, verify_transaction_inclusion,
}
use btc_parachain.Relay.History.{Call, start, store, run_call, run, empty, IsFresh, IsConsistent}
use btc_parachain.Relay.History.Reached.{run-IsConsistent}
use btc_parachain.Relay.History.Tree.{Steps, tree_of}
use btc_parachain.Relay.History.Refines.{run-Steps}
use btc_parachain.Relay.History.Proven.{IsProven, verify_transaction_inclusion-IsProven}
use btc_parachain.Examples.Data.{toy, fit, length-fit, hash_of, raw_proof}
use btc_parachain.Libraries.{Libraries}

-- The hash of a header is its version's first byte.
abbrev pub by_version : Libraries
by_version = record toy {
  sha256 = λ bs. fit (take 1 bs);
  sha256_width = λ bs. length-fit (take 1 bs);
}

-- A header with a version, on the previous version, over two transactions.
abbrev pub bytes_of : ℕ → List ℕ
bytes_of version = version ∷ replicate 3 0 ++ (version - 1) ∷ replicate 31 0 ++ 9 ∷ replicate 43 0

abbrev pub calls : List Call
calls =
    start (signed_by 1) (bytes_of 0) 100
    ∷ store (signed_by 1) (bytes_of 1)
    ∷ store (signed_by 2) (bytes_of 2)
    ∷ store (signed_by 1) (bytes_of 3)
    ∷ store (signed_by 1) (bytes_of 4)
    ∷ store (signed_by 1) (bytes_of 5)
    ∷ store (signed_by 1) (bytes_of 6)
    ∷ store (signed_by 1) (bytes_of 7)
    ∷ store (signed_by 1) (bytes_of 8)
    ∷ []

-- The storage that the calls reach.
abbrev reached : Storage
reached = run by_version calls empty

-- All eight headers were stored, and a transaction is accepted.
reached_run :
    (reached.best_block_height ≡ 108)
    × (reached.chains ≡ (3, 4) ∷ (2, 2) ∷ (1, 1) ∷ (0, 0) ∷ [])
    × ((verify_transaction_inclusion by_version
          (signed_by 1)
          (hash_of 9)
          106
          raw_proof
          2
          true
          reached).0
        ≡ ok tt)
unfolding run run_call initialize store_block_header store_verified_header next_blockchain
    store_blockchain initialize_blockchain generate_blockchain create_blockchain extend_blockchain
    insert_sorted find_slot shift_loop sort_by_key insert_by_key check_and_do_reorg reorg_loop
    reorg_main swap_main_blockchain joined_chain set_chain_refs forked_main_chain
    remove_blockchain_from_chain insert swap verify_block_header expected_target
    increment_chain_counter find_position header_from_bytes parse_block_header extract_nonce
    extract_version extract_target extract_timestamp extract_merkle_root extract_previous_block_hash
    eq from_le_bytes eq_bytes as_u256 sha256d sha256d_le verify_transaction_inclusion
    verify_merkle_proof check_confirmations parse_proof parse parse_header parse_uint parse_compact
    parse_compact_uint parse_h256 parse_flag_bits parse_items verify_proof traverse_and_extract
    compute_tree_height compute_tree_width tree_height_loop take_hash merkle_step flatten
reached_run = (refl, refl, refl)

run-IsConsistent_example : IsFresh reached ⊎ ((genesis : H256Le) × IsConsistent genesis reached)
run-IsConsistent_example = run-IsConsistent by_version calls

verify_transaction_inclusion-IsProven_example : IsProven by_version calls (hash_of 9) 106 raw_proof
verify_transaction_inclusion-IsProven_example =
    verify_transaction_inclusion-IsProven by_version (hash_of 9) 106 raw_proof calls (signed_by 1) 2
      true reached_run.2

run-Steps_example : Steps by_version (tree_of empty) (tree_of reached)
run-Steps_example = run-Steps by_version calls
