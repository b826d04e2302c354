-- ===== src/BtcCore.antt =====
-- crates/btc-core/src/lib.rs: the errors of the relay, and the dispatch errors that they become.
use Prim.Native.String.{String}
use btc_parachain.Prelude.{ℕ, ◌≡◌, refl, Option, none, some, ◌==◌, if◌then◌else◌, ap}

pub data Error : Type 0 where
  already_initialized missing_block_height invalid_header_size duplicate_block : Error
  prev_block low_diff diff_target_header malformed_txid confirmations
        insufficient_stable_confirmations :
      Error
  ongoing_fork invalid_merkle_proof invalid shutdown invalid_txid insufficient_value : Error
  tx_format wrong_recipient invalid_output_format invalid_opreturn invalid_tx_version : Error
  not_op_return unknown_errorcode fork_id_not_found block_not_found already_reported : Error
  unauthorized_relayer chain_counter_overflow block_height_overflow chains_underflow : Error

-- `Error::message`
unfoldable pub message : Error → String
message already_initialized = "Already initialized"
message missing_block_height = "Missing the block at this height"
message invalid_header_size = "Invalid block header size"
message duplicate_block = "Block already stored"
message prev_block = "Previous block hash not found"
message low_diff = "PoW hash does not meet difficulty target of header"
message diff_target_header = "Incorrect difficulty target specified in block header"
message malformed_txid = "Malformed transaction identifier"
message confirmations = "Transaction has less confirmations than requested"
message insufficient_stable_confirmations =
    "Transaction has less confirmations than the global STABLE_TRANSACTION_CONFIRMATIONS parameter"
message ongoing_fork = "Current fork ongoing"
message invalid_merkle_proof = "Invalid Merkle Proof"
message invalid = "BTC Parachain is halted"
message shutdown = "BTC Parachain has shut down"
message invalid_txid = "Transaction hash does not match given txid"
message insufficient_value = "Value of payment below requested amount"
message tx_format = "Transaction has incorrect format"
message wrong_recipient = "Incorrect recipient Bitcoin address"
message invalid_output_format = "Incorrect transaction output format"
message invalid_opreturn = "Incorrect identifier in OP_RETURN field"
message invalid_tx_version = "Invalid transaction version"
message not_op_return = "Expecting OP_RETURN output, but got another type"
message unknown_errorcode = "Error code not applicable to blocks"
message fork_id_not_found = "Blockchain with requested ID not found"
message block_not_found = "Block header not found for given hash"
message already_reported = "Error code already reported"
message unauthorized_relayer = "Unauthorized staked relayer"
message chain_counter_overflow = "Overflow of chain counter"
message block_height_overflow = "Overflow of block height"
message chains_underflow = "Underflow of stored blockchains counter"

-- `error as u8`
unfoldable pub code : Error → ℕ
code already_initialized = 0
code missing_block_height = 1
code invalid_header_size = 2
code duplicate_block = 3
code prev_block = 4
code low_diff = 5
code diff_target_header = 6
code malformed_txid = 7
code confirmations = 8
code insufficient_stable_confirmations = 9
code ongoing_fork = 10
code invalid_merkle_proof = 11
code invalid = 12
code shutdown = 13
code invalid_txid = 14
code insufficient_value = 15
code tx_format = 16
code wrong_recipient = 17
code invalid_output_format = 18
code invalid_opreturn = 19
code invalid_tx_version = 20
code not_op_return = 21
code unknown_errorcode = 22
code fork_id_not_found = 23
code block_not_found = 24
code already_reported = 25
code unauthorized_relayer = 26
code chain_counter_overflow = 27
code block_height_overflow = 28
code chains_underflow = 29

-- `DispatchError`, as far as the pallets make it.
pub data DispatchError : Type 0 where
  bad_origin : DispatchError
  module_error : (index error : ℕ) (message : Option String) → DispatchError

-- `impl From<Error> for DispatchError`
unfoldable pub dispatch_error : Error → DispatchError
unfolding message code
dispatch_error error = module_error 0 (code error) (some (message error))

-- The error with a code, the other way round.
abbrev decode : ℕ → Option Error
decode n =
    if n == 0
    then some already_initialized
    else if n == 1
    then some missing_block_height
    else if n == 2
    then some invalid_header_size
    else if n == 3
    then some duplicate_block
    else if n == 4
    then some prev_block
    else if n == 5
    then some low_diff
    else if n == 6
    then some diff_target_header
    else if n == 7
    then some malformed_txid
    else if n == 8
    then some confirmations
    else if n == 9
    then some insufficient_stable_confirmations
    else if n == 10
    then some ongoing_fork
    else if n == 11
    then some invalid_merkle_proof
    else if n == 12
    then some invalid
    else if n == 13
    then some shutdown
    else if n == 14
    then some invalid_txid
    else if n == 15
    then some insufficient_value
    else if n == 16
    then some tx_format
    else if n == 17
    then some wrong_recipient
    else if n == 18
    then some invalid_output_format
    else if n == 19
    then some invalid_opreturn
    else if n == 20
    then some invalid_tx_version
    else if n == 21
    then some not_op_return
    else if n == 22
    then some unknown_errorcode
    else if n == 23
    then some fork_id_not_found
    else if n == 24
    then some block_not_found
    else if n == 25
    then some already_reported
    else if n == 26
    then some unauthorized_relayer
    else if n == 27
    then some chain_counter_overflow
    else if n == 28
    then some block_height_overflow
    else if n == 29
    then some chains_underflow
    else none

decode-code : (e : Error) → decode (code e) ≡ some e
unfolding code
decode-code already_initialized = refl
decode-code missing_block_height = refl
decode-code invalid_header_size = refl
decode-code duplicate_block = refl
decode-code prev_block = refl
decode-code low_diff = refl
decode-code diff_target_header = refl
decode-code malformed_txid = refl
decode-code confirmations = refl
decode-code insufficient_stable_confirmations = refl
decode-code ongoing_fork = refl
decode-code invalid_merkle_proof = refl
decode-code invalid = refl
decode-code shutdown = refl
decode-code invalid_txid = refl
decode-code insufficient_value = refl
decode-code tx_format = refl
decode-code wrong_recipient = refl
decode-code invalid_output_format = refl
decode-code invalid_opreturn = refl
decode-code invalid_tx_version = refl
decode-code not_op_return = refl
decode-code unknown_errorcode = refl
decode-code fork_id_not_found = refl
decode-code block_not_found = refl
decode-code already_reported = refl
decode-code unauthorized_relayer = refl
decode-code chain_counter_overflow = refl
decode-code block_height_overflow = refl
decode-code chains_underflow = refl

abbrev code_in : DispatchError → ℕ
code_in bad_origin = 0
code_in (module_error i e m) = e

-- Two errors of the relay that become one dispatch error are the same: none hides another.
pub dispatch_error-injective : (a b : Error) → dispatch_error a ≡ dispatch_error b → a ≡ b
unfolding dispatch_error
dispatch_error-injective a b h =
    let same : code a ≡ code b = ap code_in h in cc (decode-code a, decode-code b, ap decode same)
