-- ===== src/Examples/Orphans.antt =====
-- A run of calls after which a transaction is accepted in a block that the best block does not descend
-- from: a fork that starts at another fork replaces the main chain from its own first height only.
use btc_parachain.Prelude.{
  zero, suc, some, none, false, ◌++◌, ℕ, ◌≡◌, refl, [], ◌∷◌, List, take, replicate, eq_bytes,
}
use mathlib.Core.List.{flatten}
use btc_parachain.Prelude.Words.{from_le_bytes}
use btc_parachain.Prelude.Result.{ok}
use btc_parachain.Bitcoin.Hash.{H256Le, H256Le, eq, as_u256, sha256d, sha256d_le}
use btc_parachain.Bitcoin.Header.{
  header_from_bytes, parse_block_header, parse_header, extract_nonce, extract_version,
  extract_target, extract_timestamp, extract_merkle_root, extract_previous_block_hash,
}
use btc_parachain.Bitcoin.Bytes.{
  parse, parse_uint, parse_compact_uint, parse_compact, parse_h256, parse_flag_bits, parse_items,
}
use btc_parachain.Bitcoin.Merkle.{
  verify_proof, traverse_and_extract, compute_tree_height, compute_tree_width, tree_height_loop,
  take_hash, merkle_step,
}
use btc_parachain.Bitcoin.Merkle.Parse.{parse_proof}
use btc_parachain.Relay.Confirmations.{check_confirmations}
use btc_parachain.Containers.LinkedMap.{insert, swap}
use btc_parachain.Relay.Storage.{
  get_block_chain_from_id, Storage, increment_chain_counter, find_position,
  remove_blockchain_from_chain,
}
use btc_parachain.Relay.Chains.{
  initialize_blockchain, generate_blockchain, create_blockchain, extend_blockchain,
}
use btc_parachain.Relay.Order.{insert_sorted, find_slot, shift_loop, sort_by_key, insert_by_key}
use btc_parachain.Relay.Reorg.{
  check_and_do_reorg, reorg_loop, reorg_main, swap_main_blockchain, joined_chain, set_chain_refs,
  forked_main_chain,
}
use btc_parachain.Relay.Headers.{verify_block_header, expected_target}
use btc_parachain.Relay.Dispatch.{
  signed_by, initialize, store_block_header, store_verified_header, next_blockchain,
  store_blockchain, verify_merkle_proof, verify_transaction_inclusion,
}
use btc_parachain.Relay.History.{Call, store, run_call, run, empty}
use btc_parachain.Containers.BTree
use btc_parachain.Examples.Data.{hash_of, raw_proof}
use btc_parachain.Examples.History.{by_version, calls}

-- A header with a version, on the version that is given, over two transactions.
abbrev pub bytes_on : ℕ → ℕ → List ℕ
bytes_on version prev = version ∷ replicate 3 0 ++ prev ∷ replicate 31 0 ++ 9 ∷ replicate 43 0

-- Ten more headers, from height 106 on, in a row on the one at height 105.
abbrev more_calls : List Call
more_calls =
    calls
    ++ store (signed_by 1) (bytes_on 106 5)
      ∷ store (signed_by 1) (bytes_on 107 106)
      ∷ store (signed_by 1) (bytes_on 108 107)
      ∷ store (signed_by 1) (bytes_on 109 108)
      ∷ store (signed_by 1) (bytes_on 110 109)
      ∷ store (signed_by 1) (bytes_on 111 110)
      ∷ store (signed_by 1) (bytes_on 112 111)
      ∷ store (signed_by 1) (bytes_on 113 112)
      ∷ store (signed_by 1) (bytes_on 114 113)
      ∷ store (signed_by 1) (bytes_on 115 114)
      ∷ []

abbrev later : Storage
later = run by_version more_calls empty

-- A number of blocks back from a block, by the first bytes of their hashes.
abbrev versions : ℕ → H256Le → List ℕ
versions zero hash = []
versions (suc n) hash = take 1 hash.content ++ elim (later.block_headers hash) [
  | none ↦ []
  | some r ↦ versions n r.block_header.hash_prev_block
]

-- The best block is the last one, at height 115. Its predecessors are the new headers and the first
-- six, while the main chain has the block 6 at height 106, and a transaction of that block is accepted
-- with six confirmations.
stale_block_accepted :
    (later.best_block ≡ some (hash_of 115))
    × (later.best_block_height ≡ 115)
    × (versions 16 (hash_of 115)
        ≡ 115 ∷ 114 ∷ 113 ∷ 112 ∷ 111 ∷ 110 ∷ 109 ∷ 108 ∷ 107 ∷ 106 ∷ 5 ∷ 4 ∷ 3 ∷ 2 ∷ 1 ∷ 0 ∷ [])
    × (BTree.get 106 (get_block_chain_from_id 0 later).chain ≡ some (hash_of 6))
    × ((verify_transaction_inclusion by_version
          (signed_by 1)
          (hash_of 9)
          106
          raw_proof
          6
          false
          later).0
        ≡ ok tt)
unfolding run run_call initialize store_block_header store_verified_header next_blockchain
    store_blockchain initialize_blockchain generate_blockchain create_blockchain extend_blockchain
    insert_sorted find_slot shift_loop sort_by_key insert_by_key check_and_do_reorg reorg_loop
    reorg_main swap_main_blockchain joined_chain set_chain_refs forked_main_chain
    remove_blockchain_from_chain insert swap verify_block_header expected_target
    increment_chain_counter find_position header_from_bytes parse_block_header extract_nonce
    extract_version extract_target extract_timestamp extract_merkle_root extract_previous_block_hash
    eq from_le_bytes eq_bytes as_u256 sha256d sha256d_le verify_transaction_inclusion
    verify_merkle_proof check_confirmations parse_proof parse parse_header parse_uint parse_compact
    parse_compact_uint parse_h256 parse_flag_bits parse_items verify_proof traverse_and_extract
    compute_tree_height compute_tree_width tree_height_loop take_hash merkle_step flatten
stale_block_accepted = (refl, refl, refl, refl, refl)
