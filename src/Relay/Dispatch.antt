-- ===== src/Relay/Dispatch.antt =====
-- The dispatchable functions of crates/btc-relay/src/lib.rs. Their errors are dispatch errors.
pub mod Inclusion
pub mod Extension
pub mod Lengthen
pub mod NoFork
pub mod Accepted
pub mod Paid
pub mod Start
pub mod Payment
pub mod Submission
use btc_parachain.Prelude.{
  ℕ, ◌+◌, Bool, true, false, not, Option, none, some, List, [], ◌∷◌, length, ltb, leb, ◌==◌,
  if◌then◌else◌, eq_bytes,
}
use btc_parachain.Prelude.Int.{ℤ, leb_ℤ}
use btc_parachain.Prelude.Words.{add32}
use btc_parachain.Prelude.Result.{Result, ok, err, panic, map_err, index}
use btc_parachain.Prelude.Result.{◌>>=◌ as bind_result}
use btc_parachain.Libraries.{Libraries}
use btc_parachain.BtcCore.{
  Error, DispatchError, bad_origin, dispatch_error, already_initialized, ongoing_fork, invalid_txid,
  invalid_merkle_proof, tx_format, insufficient_value, invalid_output_format, wrong_recipient,
  invalid_opreturn,
}
use btc_parachain.Bitcoin.Types.{
  RawBlockHeader, BlockHeader, RichBlockHeader, Transaction, TransactionOutput,
}
use btc_parachain.Bitcoin.Hash
use btc_parachain.Bitcoin.Hash.{H256Le}
use btc_parachain.Bitcoin.Header.{header_from_bytes, parse_block_header}
use btc_parachain.Bitcoin.Script.{extract_address_hash, extract_op_return_data}
use btc_parachain.Bitcoin.Tx
use btc_parachain.Bitcoin.Merkle.{ProofResult, verify_proof}
use btc_parachain.Bitcoin.Merkle.Parse.{parse_proof}
use btc_parachain.Relay.Storage.{
  Storage, BlockChain, Action, pure, lift, gets, modify, ensure, convert, with_errors,
  deposit_event, ◌>>=◌, ◌>>◌, best_block_exists, get_best_block, get_chain_id_from_position,
  get_block_chain_from_id, get_block_header_from_hash, get_block_header_from_height,
  set_block_header_from_hash, set_block_chain_from_id, set_chain_from_position_and_id,
  set_best_block, set_best_block_height, mutate_chains_index, initialized, store_main_chain_header,
  store_fork_header,
}
use btc_parachain.Relay.Chains.{
  main_chain_id, initialize_blockchain, create_blockchain, extend_blockchain,
}
use btc_parachain.Relay.Headers.{verify_block_header}
use btc_parachain.Relay.Confirmations.{check_confirmations, stable_transaction_confirmations}
use btc_parachain.Relay.Order.{insert_sorted}
use btc_parachain.Relay.Reorg.{check_and_do_reorg}

-- The origin of a call; `ensure_signed` refuses all but a signed one.
pub data Origin : Type 0 where
  signed_by : ℕ → Origin
  unsigned : Origin

abbrev pub ensure_signed : Origin → Result DispatchError ℕ
ensure_signed (signed_by account) = ok account
ensure_signed unsigned = err bad_origin

-- A read of the storage that may fail, under `?`.
abbrev reads : {A : Type 0} → (Storage → Result Error A) → Action DispatchError A
reads f s = (convert dispatch_error (f s), s)

unfoldable pub initialize : Libraries → Origin → List ℕ → ℕ → Action DispatchError (Unit {0})
initialize lib origin block_header_bytes block_height = do
  _ ← lift (ensure_signed origin)
  initialised ← gets best_block_exists
  ensure (not initialised) (dispatch_error already_initialized)
  raw_block_header ← lift (header_from_bytes block_header_bytes)
  basic_block_header ← lift (parse_block_header lib raw_block_header)
  let block_header_hash = Hash.sha256d_le lib raw_block_header
  let blockchain = initialize_blockchain block_height block_header_hash
  modify (
      set_block_header_from_hash block_header_hash (record {
        block_hash = block_header_hash;
        block_header = basic_block_header;
        block_height = block_height;
        chain_ref = blockchain.chain_id;
      }))
  modify (set_block_chain_from_id main_chain_id blockchain)
  modify (set_chain_from_position_and_id 0 main_chain_id)
  modify (set_best_block block_header_hash)
  modify (set_best_block_height block_height)
  deposit_event (initialized block_height block_header_hash)

-- The new chain of one block, or the chain of the previous block with one more.
unfoldable pub next_blockchain : Bool → ℕ → H256Le → BlockChain → Action Error BlockChain
next_blockchain true height hash prev = create_blockchain height hash
next_blockchain false height hash prev = lift (extend_blockchain height hash prev)

-- The chain is stored. For an extended one the closure that `mutate` is given, `|_b| &blockchain`,
-- leaves the entry as it is.
unfoldable pub store_blockchain : Bool → ℕ → H256Le → BlockChain → Action Error (Unit {0})
store_blockchain true height hash blockchain = do
  modify (set_block_chain_from_id blockchain.chain_id blockchain)
  modify (insert_sorted blockchain)
store_blockchain false height hash blockchain = do
  modify (mutate_chains_index blockchain.chain_id (λ b. b))
  check_and_do_reorg blockchain
  if blockchain.chain_id == main_chain_id
      then modify (λ s. set_best_block_height height (set_best_block hash s))
      else pure tt

unfoldable pub store_verified_header :
    H256Le → BlockHeader → RichBlockHeader → Action Error (Unit {0})
store_verified_header block_header_hash basic_block_header prev_header = do
  prev_blockchain ← gets (get_block_chain_from_id prev_header.chain_ref)
  let current_block_height = add32 prev_header.block_height 1
  let is_fork = not (prev_blockchain.max_height == prev_header.block_height)
  blockchain ← next_blockchain is_fork current_block_height block_header_hash prev_blockchain
  modify (
      set_block_header_from_hash block_header_hash (record {
        block_hash = block_header_hash;
        block_header = basic_block_header;
        block_height = current_block_height;
        chain_ref = blockchain.chain_id;
      }))
  store_blockchain is_fork current_block_height block_header_hash blockchain
  current_best_block ← gets get_best_block
  deposit_event (
      if Hash.eq current_best_block block_header_hash
      then store_main_chain_header current_block_height block_header_hash
      else store_fork_header blockchain.chain_id current_block_height block_header_hash)

unfoldable pub store_block_header : Libraries → Origin → List ℕ → Action DispatchError (Unit {0})
store_block_header lib origin block_header_bytes = do
  _ ← lift (ensure_signed origin)
  raw_block_header ← lift (header_from_bytes block_header_bytes)
  basic_block_header ← reads (verify_block_header lib raw_block_header)
  prev_header ← reads (get_block_header_from_hash basic_block_header.hash_prev_block)
  with_errors dispatch_error
      (store_verified_header (Hash.sha256d_le lib raw_block_header) basic_block_header prev_header)

unfoldable pub verify_merkle_proof : Libraries → List ℕ → Result Error ProofResult
verify_merkle_proof lib raw_merkle_proof =
    bind_result (map_err invalid_merkle_proof (parse_proof lib raw_merkle_proof))
      λ merkle_proof. map_err invalid_merkle_proof (verify_proof lib merkle_proof)

unfoldable pub verify_transaction_inclusion :
    Libraries → Origin → H256Le → ℕ → List ℕ → ℕ → Bool → Action DispatchError (Unit {0})
verify_transaction_inclusion lib origin tx_id block_height raw_merkle_proof confirmations insecure =
    do
      _ ← lift (ensure_signed origin)
      best_block_height ← gets (λ s. s.best_block_height)
      next_best_fork_id ← gets (get_chain_id_from_position 1)
      next_best_fork ← gets (get_block_chain_from_id next_best_fork_id)
      ensure
          (leb (add32 next_best_fork.max_height stable_transaction_confirmations) best_block_height)
          (dispatch_error ongoing_fork)
      reads (λ s. check_confirmations best_block_height confirmations block_height insecure)
      proof_result ← reads (λ s. verify_merkle_proof lib raw_merkle_proof)
      rich_header ← reads (λ s.
          get_block_header_from_height (get_block_chain_from_id main_chain_id s) block_height s)
      ensure (Hash.eq proof_result.transaction_hash tx_id) (dispatch_error invalid_txid)
      ensure (Hash.eq proof_result.extracted_root rich_header.block_header.merkle_root)
          (dispatch_error invalid_merkle_proof)

-- `Self::parse_transaction(&raw_tx)`
unfoldable pub parse_transaction : List ℕ → Result Error Transaction
parse_transaction raw_tx = map_err tx_format (Tx.parse_transaction raw_tx)

unfoldable pub validate_transaction :
    Origin → List ℕ → ℤ → List ℕ → List ℕ → Action DispatchError (Unit {0})
validate_transaction origin raw_tx payment_value recipient_btc_address op_return_id = do
  _ ← lift (ensure_signed origin)
  transaction ← reads (λ s. map_err tx_format (parse_transaction raw_tx))
  ensure (leb 2 (length transaction.outputs)) (dispatch_error tx_format)
  payment ← lift (index transaction.outputs 0)
  ensure (leb_ℤ payment_value payment.value) (dispatch_error insufficient_value)
  extr_recipient_address ←
      reads (λ s. map_err invalid_output_format (extract_address_hash payment.script))
  ensure (eq_bytes extr_recipient_address recipient_btc_address) (dispatch_error wrong_recipient)
  op_return ← lift (index transaction.outputs 1)
  extr_op_return_value ←
      reads (λ s. map_err invalid_opreturn (extract_op_return_data op_return.script))
  ensure (eq_bytes extr_op_return_value op_return_id) (dispatch_error invalid_opreturn)
