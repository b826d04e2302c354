-- ===== src/Bitcoin/Types.antt =====
-- crates/bitcoin/src/types.rs: headers, transactions, blockchains, errors.
use btc_parachain.Prelude.{ℕ, Bool, List, Option}
use btc_parachain.Prelude.Int.{ℤ}
use btc_parachain.Bitcoin.Hash.{H256Le}

-- `bitcoin::types::Error`
pub data Error : Type 0 where
  eos malformed_proof invalid_proof malformed_transaction malformed_witness_output : Error
  malformed_p2pkh_output malformed_p2sh_output malformed_op_return_output : Error
  unsupported_output_format : Error

-- The raw block header is an array of 80 bytes.
abbrev pub RawBlockHeader : Type 0
RawBlockHeader = List ℕ

pub record BlockHeader : Type 0 where
  pub merkle_root : H256Le
  pub target : ℕ
  pub timestamp : ℕ
  pub version : ℕ
  pub hash_prev_block : H256Le
  pub nonce : ℕ

pub record TransactionInput : Type 0 where
  pub previous_hash : H256Le
  pub previous_index : ℕ
  pub coinbase : Bool
  pub height : Option (List ℕ)
  pub script : List ℕ
  pub sequence : ℕ
  pub witness : Option (List ℕ)

pub record TransactionOutput : Type 0 where
  pub value : ℤ
  pub script : List ℕ

pub record Transaction : Type 0 where
  pub version : ℤ
  pub inputs : List TransactionInput
  pub outputs : List TransactionOutput
  pub block_height : Option ℕ
  pub locktime : Option ℕ

pub record RichBlockHeader : Type 0 where
  pub block_hash : H256Le
  pub block_header : BlockHeader
  pub block_height : ℕ
  pub chain_ref : ℕ
