-- ===== src/Examples/Listed.antt =====
-- Examples of the order of the chains and of the best height over sequences of calls.
use btc_parachain.Prelude.{
  ℕ, ◌≡◌, ◌≢◌, ◌<◌, ◌^◌, ◌⊎◌, refl, none, some, arith, eq_bytes, ◌+◌, ◌-◌, take, drop,
  if◌then◌else◌, Bool-cases, inl, inr,
}
use mathlib.Core.List.{flatten}
use btc_parachain.Prelude.Words.{from_le_bytes}
use btc_parachain.Prelude.Result.{ok}
use btc_parachain.BtcCore.{Error}
use btc_parachain.Bitcoin.Types.{BlockHeader, RichBlockHeader}
use btc_parachain.Bitcoin.Hash.{eq, as_u256, sha256d, sha256d_le, H256Le}
use btc_parachain.Bitcoin.Header.{
  header_from_bytes, parse_block_header, parse_header, extract_nonce, extract_version,
  extract_target, extract_timestamp, extract_merkle_root, extract_previous_block_hash,
}
use btc_parachain.Bitcoin.Bytes.{
  parse, parse_uint, parse_compact_uint, parse_compact, parse_h256, parse_flag_bits, parse_items,
}
use btc_parachain.Bitcoin.Merkle.{
  verify_proof, traverse_and_extract, compute_tree_height, compute_tree_width, tree_height_loop,
  take_hash, merkle_step,
}
use btc_parachain.Bitcoin.Merkle.Parse.{parse_proof}
use btc_parachain.Relay.Confirmations.{check_confirmations}
use btc_parachain.Containers.LinkedMap.{insert, swap}
use btc_parachain.Relay.Storage.{
  Storage, increment_chain_counter, find_position, remove_blockchain_from_chain,
}
use btc_parachain.Relay.Chains.{
  initialize_blockchain, generate_blockchain, create_blockchain, extend_blockchain,
}
use btc_parachain.Relay.Order.{insert_sorted, find_slot, shift_loop, sort_by_key, insert_by_key}
use btc_parachain.Relay.Reorg.{
  check_and_do_reorg, reorg_loop, reorg_main, swap_main_blockchain, joined_chain, set_chain_refs,
  forked_main_chain,
}
use btc_parachain.Relay.Headers.{verify_block_header, expected_target}
use btc_parachain.Relay.Headers.Acceptance.{IsAcceptable}
use btc_parachain.Relay.Dispatch.{
  signed_by, initialize, store_block_header, store_verified_header, next_blockchain,
  store_blockchain, verify_merkle_proof, verify_transaction_inclusion,
}
use btc_parachain.Relay.Dispatch.Extension.{rich}
use btc_parachain.Relay.History.{run_call, run, empty}
use btc_parachain.Relay.History.Listed.{IsListed}
use btc_parachain.Relay.History.Listed.Calls.{IsBlank, AllTyped}
use btc_parachain.Relay.History.Listed.Reached.{run-IsListed, store_block_header_accepts}
use btc_parachain.Relay.History.Listed.Climb.{Climbs}
use btc_parachain.Relay.History.Listed.Best.{InRange, run-Climbs}
use btc_parachain.Relay.History.Listed.Atomic.{Stores, store_block_header_atomic}
use btc_parachain.Examples.Data.{hash_of}
use btc_parachain.Examples.History.{by_version, bytes_of, calls}

abbrev reached : Storage
reached = run by_version calls empty

typed : AllTyped calls
typed = (omega arith, (tt, (tt, (tt, (tt, (tt, (tt, (tt, (tt, tt)))))))))

run-IsListed_example : IsBlank reached ⊎ IsListed 9 reached
run-IsListed_example = run-IsListed by_version calls typed (omega arith)

-- The header behind the eighth.
abbrev ninth : BlockHeader
ninth = record {
  merkle_root = hash_of 9;
  target = 2 ^ 223;
  timestamp = 0;
  version = 9;
  hash_prev_block = hash_of 8;
  nonce = 0;
}

abbrev eighth : RichBlockHeader
eighth = record {
  block_hash = hash_of 8;
  block_header = record ninth { version = 8; hash_prev_block = hash_of 7 };
  block_height = 108;
  chain_ref = 0;
}

ninth_parsed : parse_block_header {E = Error} by_version (bytes_of 9) ≡ ok ninth
unfolding parse_block_header extract_nonce extract_version extract_target extract_timestamp
    extract_merkle_root extract_previous_block_hash from_le_bytes
ninth_parsed = refl

ninth_facts :
    (reached.block_headers (sha256d_le by_version (bytes_of 9)) ≡ none)
    × (reached.block_headers (hash_of 8) ≡ some eighth)
    × (as_u256 (sha256d_le by_version (bytes_of 9)) ≡ 9)
    × (expected_target eighth 109 reached ≡ ok (2 ^ 223))
unfolding run run_call initialize store_block_header store_verified_header next_blockchain
    store_blockchain initialize_blockchain generate_blockchain create_blockchain extend_blockchain
    insert_sorted find_slot shift_loop sort_by_key insert_by_key check_and_do_reorg reorg_loop
    reorg_main swap_main_blockchain joined_chain set_chain_refs forked_main_chain
    remove_blockchain_from_chain insert swap verify_block_header expected_target
    increment_chain_counter find_position header_from_bytes parse_block_header extract_nonce
    extract_version extract_target extract_timestamp extract_merkle_root extract_previous_block_hash
    eq from_le_bytes eq_bytes as_u256 sha256d sha256d_le verify_transaction_inclusion
    verify_merkle_proof check_confirmations parse_proof parse parse_header parse_uint parse_compact
    parse_compact_uint parse_h256 parse_flag_bits parse_items verify_proof traverse_and_extract
    compute_tree_height compute_tree_width tree_height_loop take_hash merkle_step flatten
ninth_facts = (refl, refl, refl, refl)

ninth_has_work : as_u256 (sha256d_le by_version (bytes_of 9)) < 2 ^ 223
ninth_has_work = omega (arith, ninth_facts.2)

abbrev acceptance : IsAcceptable by_version (bytes_of 9) reached ninth
acceptance = record {
  prev = eighth;
  is_parsed = ninth_parsed;
  is_new = ninth_facts.0;
  follows = ninth_facts.1;
  has_work = ninth_has_work;
  has_target = ninth_facts.3;
}

store_block_header_accepts_example :
    ((store_block_header by_version (signed_by 1) (bytes_of 9) reached).0 ≡ ok tt)
    × (c : ℕ) × ((store_block_header by_version (signed_by 1) (bytes_of 9) reached).1.block_headers
          (sha256d_le by_version (bytes_of 9))
        ≡ some (rich (sha256d_le by_version (bytes_of 9)) ninth 109 c))
store_block_header_accepts_example =
    store_block_header_accepts by_version 1 (bytes_of 9) refl calls typed (omega arith) ninth
      acceptance (omega arith)

-- The first call, and the second, which stores one header above it.
abbrev two_headers : Storage
two_headers = run by_version (take 1 (drop 1 calls)) (run by_version (take 1 calls) empty)

abbrev header_at : ℕ → RichBlockHeader
header_at n = record {
  block_hash = hash_of n;
  block_header = record {
    merkle_root = hash_of 9;
    target = 2 ^ 223;
    timestamp = 0;
    version = n;
    hash_prev_block = hash_of (n - 1);
    nonce = 0;
  };
  block_height = 100 + n;
  chain_ref = 0;
}

two_headers_found :
    (hash : H256Le)
    → two_headers.block_headers hash ≡ (
        if eq hash (hash_of 1)
        then some (header_at 1)
        else if eq hash (hash_of 0)
        then some (header_at 0)
        else none)
unfolding run run_call initialize store_block_header store_verified_header next_blockchain
    store_blockchain initialize_blockchain generate_blockchain create_blockchain extend_blockchain
    insert_sorted find_slot shift_loop sort_by_key insert_by_key check_and_do_reorg reorg_loop
    reorg_main swap_main_blockchain joined_chain set_chain_refs forked_main_chain
    remove_blockchain_from_chain insert swap verify_block_header expected_target
    increment_chain_counter find_position header_from_bytes parse_block_header extract_nonce
    extract_version extract_target extract_timestamp extract_merkle_root extract_previous_block_hash
    eq from_le_bytes eq_bytes as_u256 sha256d sha256d_le verify_transaction_inclusion
    verify_merkle_proof check_confirmations parse_proof parse parse_header parse_uint parse_compact
    parse_compact_uint parse_h256 parse_flag_bits parse_items verify_proof traverse_and_extract
    compute_tree_height compute_tree_width tree_height_loop take_hash merkle_step flatten
two_headers_found hash = refl

two_headers-InRange : InRange two_headers
two_headers-InRange hash r e = elim (Bool-cases (eq hash (hash_of 1))) [
  | inl second ↦ ground (arith, two_headers_found hash)
  | inr other ↦ ground (arith, two_headers_found hash)
]

run-Climbs_example : Climbs (run by_version (take 1 calls) empty) two_headers
run-Climbs_example =
    run-Climbs by_version (take 1 calls) (take 1 (drop 1 calls)) (omega arith, tt) (tt, tt)
      (omega arith) two_headers-InRange

store_block_header_atomic_example :
    let result = store_block_header by_version (signed_by 1) (bytes_of 2) two_headers in
    Stores by_version (bytes_of 2) two_headers result
    ⊎ ((result.0 ≢ ok tt) × (result.1 ≡ two_headers))
unfolding run
store_block_header_atomic_example =
    store_block_header_atomic by_version (bytes_of 2) (take 2 calls) (omega arith, (tt, tt))
      (omega arith) (λ hash r e. (two_headers-InRange hash r e).1) (signed_by 1)
