-- ===== src/Examples/Stale.antt =====
-- A run of calls after which a stored header belongs to a chain that is gone: it had extended a fork that
-- another block of the same height took to the main chain.
use btc_parachain.Prelude.{some, none, ℕ, ◌≡◌, refl, [], ◌∷◌, List, eq_bytes, Option}
use mathlib.Core.List.{flatten}
use btc_parachain.Prelude.Words.{from_le_bytes}
use btc_parachain.Bitcoin.Hash.{eq, as_u256, sha256d, sha256d_le}
use btc_parachain.Bitcoin.Header.{
  header_from_bytes, parse_block_header, parse_header, extract_nonce, extract_version,
  extract_target, extract_timestamp, extract_merkle_root, extract_previous_block_hash,
}
use btc_parachain.Bitcoin.Bytes.{
  parse, parse_uint, parse_compact_uint, parse_compact, parse_h256, parse_flag_bits, parse_items,
}
use btc_parachain.Bitcoin.Merkle.{
  verify_proof, traverse_and_extract, compute_tree_height, compute_tree_width, tree_height_loop,
  take_hash, merkle_step,
}
use btc_parachain.Bitcoin.Merkle.Parse.{parse_proof}
use btc_parachain.Relay.Confirmations.{check_confirmations}
use btc_parachain.Containers.LinkedMap.{insert, swap}
use btc_parachain.Relay.Storage.{
  Storage, increment_chain_counter, find_position, remove_blockchain_from_chain, BlockChain,
}
use btc_parachain.Relay.Chains.{
  initialize_blockchain, generate_blockchain, create_blockchain, extend_blockchain,
}
use btc_parachain.Relay.Order.{insert_sorted, find_slot, shift_loop, sort_by_key, insert_by_key}
use btc_parachain.Relay.Reorg.{
  check_and_do_reorg, reorg_loop, reorg_main, swap_main_blockchain, joined_chain, set_chain_refs,
  forked_main_chain,
}
use btc_parachain.Relay.Headers.{verify_block_header, expected_target}
use btc_parachain.Relay.Dispatch.{
  signed_by, initialize, store_block_header, store_verified_header, next_blockchain,
  store_blockchain, verify_merkle_proof, verify_transaction_inclusion,
}
use btc_parachain.Relay.History.{Call, store, run_call, run, empty, start}
use btc_parachain.Examples.Data.{hash_of}
use btc_parachain.Examples.History.{by_version}
use btc_parachain.Examples.Orphans.{bytes_on}
use btc_parachain.Bitcoin.Types.{RichBlockHeader}
use btc_parachain.Relay.Flags
use btc_parachain.Relay.Flags.{flag_block_error}
use btc_parachain.Security.{no_data_btc_relay}

-- Each header is on the one that is named behind it.
abbrev links : List (ℕ × ℕ)
links =
    (1, 0)
    ∷ (2, 1)
    ∷ (3, 2)
    ∷ (4, 3)
    ∷ (5, 4)
    ∷ (6, 5)
    ∷ (16, 5)
    ∷ (26, 5)
    ∷ (7, 6)
    ∷ (8, 7)
    ∷ (18, 7)
    ∷ (28, 7)
    ∷ (9, 8)
    ∷ (19, 8)
    ∷ []

abbrev store_all : List (ℕ × ℕ) → List Call
store_all [] = []
store_all ((version, prev) ∷ l) = store (signed_by 1) (bytes_on version prev) ∷ store_all l

abbrev forked_calls : List Call
forked_calls = start (signed_by 1) (bytes_on 0 0) 100 ∷ store_all links

abbrev left : Storage
left = run by_version forked_calls empty

abbrev chain_of : Option RichBlockHeader → ℕ
chain_of none = 0
chain_of (some r) = r.chain_ref

abbrev id_of : Option BlockChain → Option ℕ
id_of none = none
id_of (some c) = some c.chain_id

-- The block 19 is the best one, at height 109. The block 9 of that height is stored with the id 6 of the
-- fork, which has no entry. Flagging it makes an entry under this id that has the id of the main chain.
stale_chain :
    (left.best_block ≡ some (hash_of 19))
    × (left.best_block_height ≡ 109)
    × (chain_of (left.block_headers (hash_of 9)) ≡ 6)
    × (id_of (left.chains_index 6) ≡ none)
    × (id_of ((flag_block_error (hash_of 9) no_data_btc_relay left).1.chains_index 6) ≡ some 0)
unfolding run run_call initialize store_block_header store_verified_header next_blockchain
    store_blockchain initialize_blockchain generate_blockchain create_blockchain extend_blockchain
    insert_sorted find_slot shift_loop sort_by_key insert_by_key check_and_do_reorg reorg_loop
    reorg_main swap_main_blockchain joined_chain set_chain_refs forked_main_chain
    remove_blockchain_from_chain insert swap verify_block_header expected_target
    increment_chain_counter find_position header_from_bytes parse_block_header extract_nonce
    extract_version extract_target extract_timestamp extract_merkle_root extract_previous_block_hash
    eq from_le_bytes eq_bytes as_u256 sha256d sha256d_le verify_transaction_inclusion
    verify_merkle_proof check_confirmations parse_proof parse parse_header parse_uint parse_compact
    parse_compact_uint parse_h256 parse_flag_bits parse_items verify_proof traverse_and_extract
    compute_tree_height compute_tree_width tree_height_loop take_hash merkle_step flatten
    flag_block_error Flags.flag
stale_chain = (refl, refl, refl, refl, refl)
