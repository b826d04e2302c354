-- ===== src/Examples/Bitcoin.antt =====
-- Examples of compact integers, scripts, partial merkle trees, payments, and the start of the relay.
use btc_parachain.Prelude.{
  ℕ, ◌≡◌, refl, [], ◌∷◌, ◌++◌, true, false, none, arith, List, replicate, ◌^◌, eq_bytes,
}
use btc_parachain.Prelude.Int.{pos}
use btc_parachain.Prelude.Words.{from_le_bytes}
use btc_parachain.Prelude.Result.{ok, err, panic}
use btc_parachain.BtcCore.{DispatchError, dispatch_error, already_initialized}
use btc_parachain.Bitcoin.Types.{BlockHeader}
use btc_parachain.Bitcoin.Hash.{zero, eq}
use btc_parachain.Bitcoin.Header.{
  parse_block_header, extract_nonce, extract_version, extract_target, extract_timestamp,
  extract_merkle_root, extract_previous_block_hash,
}
use btc_parachain.Bitcoin.Bytes.{
  parse_compact, parse, parse_int, parse_uint, parse_vec, parse_compact_uint, parse_items,
  parse_h256, read,
}
use btc_parachain.Bitcoin.Tx
use btc_parachain.Bitcoin.Tx.{
  parse_inputs, parse_input, parse_transaction_input, parse_coinbase_height, parse_output,
  parse_transaction_output, parse_witness_part, parse_witnesses,
}
use btc_parachain.Relay.Dispatch
use btc_parachain.Bitcoin.Bytes.Compact.{parse_compact_panics}
use btc_parachain.Bitcoin.Script.{
  extract_address_hash, extract_op_return_data, p2pkh_hash, p2sh_hash, witness_program,
}
use btc_parachain.Bitcoin.Script.Address.{key_hash, script_of, extract_address_hash-script_of}
use btc_parachain.Bitcoin.Merkle.{
  verify_proof, compute_tree_height, tree_height_loop, compute_tree_width,
}
use btc_parachain.Bitcoin.Merkle.Partial.{PartialTree, leaf, pruned, lone, branch, Fits, root_of}
use btc_parachain.Bitcoin.Merkle.Completeness.{proof_of, verify_proof-proof_of}
use btc_parachain.Relay.Storage.{Storage}
use btc_parachain.Relay.Dispatch.{signed_by, validate_transaction, initialize}
use btc_parachain.Relay.Dispatch.Payment.{IsPayment, validate_transaction-IsPayment}
use btc_parachain.Relay.Dispatch.Start.{IsStarted, initialize_once}
use btc_parachain.Examples.Data.{toy, hash_of, header_on, raw_header, two_chains}

parse_compact_panics_example : parse_compact ((7 ∷ []) ++ 0xfe ∷ 0 ∷ 0 ∷ 1 ∷ 0 ∷ []) 1 ≡ panic
parse_compact_panics_example =
    parse_compact_panics 0xfe (7 ∷ []) (0 ∷ 0 ∷ 1 ∷ 0 ∷ []) (omega arith) (omega arith)

extract_address_hash-script_of_example :
    extract_address_hash (script_of key_hash (replicate 20 5)) ≡ ok (replicate 20 5)
extract_address_hash-script_of_example =
    extract_address_hash-script_of key_hash (replicate 20 5) refl

-- Scripts that the two readers cannot take.
short_scripts :
    (extract_address_hash [] ≡ panic)
    × (extract_op_return_data [] ≡ panic)
    × (extract_op_return_data (0x6a ∷ []) ≡ panic)
unfolding extract_address_hash extract_op_return_data
short_scripts = (refl, refl, refl)

-- Of three transactions, the last is matched: its node has one child.
abbrev third_of_three : PartialTree
third_of_three = branch (pruned (hash_of 3)) (lone (leaf true (hash_of 9)))

third_of_three-Fits :
    Fits 3
      (compute_tree_height (proof_of (header_on 0) 3 third_of_three (replicate 4 false)))
      0
      third_of_three
unfolding compute_tree_height tree_height_loop compute_tree_width
third_of_three-Fits = (1, refl, omega arith, omega arith, (0, refl, omega arith, refl))

verify_proof-proof_of_example :
    verify_proof toy (proof_of (header_on 0) 3 third_of_three (replicate 4 false))
    ≡ ok (record {
      extracted_root = root_of toy third_of_three;
      transaction_hash = hash_of 9;
      transaction_position = 2;
    })
verify_proof-proof_of_example =
    verify_proof-proof_of toy (header_on 0) 3 third_of_three (replicate 4 false) 2 (hash_of 9)
      (omega arith) (omega arith) third_of_three-Fits (omega arith) refl refl

abbrev raw_payment : List ℕ
raw_payment =
    (1 ∷ 0 ∷ 0 ∷ 0 ∷ [])
    ++ (1 ∷ [])
    ++ replicate 32 4
    ++ (0 ∷ 0 ∷ 0 ∷ 0 ∷ 0 ∷ 255 ∷ 255 ∷ 255 ∷ 255 ∷ [])
    ++ (2 ∷ [])
    ++ (90 ∷ replicate 7 0)
    ++ (25 ∷ script_of key_hash (replicate 20 5))
    ++ replicate 8 0
    ++ (4 ∷ 0x6a ∷ 2 ∷ 7 ∷ 8 ∷ [])
    ++ replicate 4 0

payment_accepted :
    (validate_transaction
      (signed_by 1)
      raw_payment
      (pos 80)
      (replicate 20 5)
      (7 ∷ 8 ∷ [])
      two_chains).0
    ≡ ok tt
unfolding validate_transaction Dispatch.parse_transaction Tx.parse_transaction parse parse_int
    parse_uint from_le_bytes parse_inputs parse_vec parse_compact parse_compact_uint parse_items
    parse_input parse_transaction_input parse_h256 eq eq_bytes parse_coinbase_height read
    extract_address_hash extract_op_return_data p2pkh_hash p2sh_hash witness_program parse_output
    parse_transaction_output parse_witness_part parse_witnesses
payment_accepted = refl

validate_transaction-IsPayment_example :
    IsPayment raw_payment (pos 80) (replicate 20 5) (7 ∷ 8 ∷ [])
    × ((validate_transaction
          (signed_by 1)
          raw_payment
          (pos 80)
          (replicate 20 5)
          (7 ∷ 8 ∷ [])
          two_chains).1
        ≡ two_chains)
validate_transaction-IsPayment_example =
    validate_transaction-IsPayment (signed_by 1) raw_payment (pos 80) (replicate 20 5) (7 ∷ 8 ∷ [])
      two_chains payment_accepted

abbrev nothing_stored : Storage
nothing_stored = record {
  block_headers = λ hash. none;
  chains = [];
  chains_index = λ id. none;
  best_block = none;
  best_block_height = 0;
  chain_counter = 0;
  events = [];
}

abbrev first_header : BlockHeader
first_header = record {
  merkle_root = zero;
  target = 2 ^ 223;
  timestamp = 0;
  version = 0;
  hash_prev_block = hash_of 106;
  nonce = 0;
}

first_parsed : parse_block_header {E = DispatchError} toy raw_header ≡ ok first_header
unfolding parse_block_header extract_nonce extract_version extract_target extract_timestamp
    extract_merkle_root extract_previous_block_hash from_le_bytes
first_parsed = refl

initialize_once_example :
    let s' = (initialize toy (signed_by 1) raw_header 100 nothing_stored).1 in
    ((initialize toy (signed_by 1) raw_header 100 nothing_stored).0 ≡ ok tt)
    × IsStarted toy raw_header 100 s'
    × ((again : ℕ) (bytes' : List ℕ) (height' : ℕ)
        → initialize toy (signed_by again) bytes' height' s'
          ≡ (err (dispatch_error already_initialized), s'))
initialize_once_example =
    initialize_once toy 1 raw_header 100 nothing_stored first_header refl refl first_parsed
