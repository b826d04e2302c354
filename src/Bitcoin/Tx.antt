-- ===== src/Bitcoin/Tx.antt =====
-- crates/bitcoin/src/parser.rs: transactions.
pub mod Written
pub mod RoundTrip
pub mod Segwit
use Prim.Native.Nat.{bit_and}
use btc_parachain.Prelude.{
  ℕ, ◌-◌, ◌%◌, ◌^◌, ◌&&◌, not, Bool, true, false, List, [], ◌∷◌, Option, none, some, length, ltb,
  ◌==◌, if◌then◌else◌,
}
use btc_parachain.Prelude.Int.{ℤ, pos, eq_ℤ, from_signed}
use btc_parachain.Prelude.Words.{sub64}
use btc_parachain.Prelude.Result.{Result, ok, slice_from, fail_if, ◌>>=◌, ◌>>◌}
use btc_parachain.Libraries.{Libraries}
use btc_parachain.Bitcoin.Types.{
  Error, malformed_transaction, TransactionInput, TransactionOutput, Transaction,
}
use btc_parachain.Bitcoin.Hash
use btc_parachain.Bitcoin.Hash.{H256Le}
use btc_parachain.Bitcoin.Bytes.{
  BytesParser, Parsable, Parse, new, parse, read, parse_uint, parse_int, parse_compact, parse_h256,
  parse_vec,
}

abbrev pub serialize_transaction_no_witness : ℕ
serialize_transaction_no_witness = 0x40000000

-- The height of a coinbase input, and the size that is left for its script. `script_size -= 4` wraps.
unfoldable pub parse_coinbase_height :
    Bool → ℕ → BytesParser → Result Error (Option (List ℕ) × ℕ × BytesParser)
parse_coinbase_height true script_size b = do
  (height, b') ← read 4 b
  ok (some height, sub64 script_size 4, b')
parse_coinbase_height false script_size b = ok (none, script_size, b)

unfoldable pub parse_transaction_input : List ℕ → ℤ → Result Error (TransactionInput × ℕ)
parse_transaction_input raw_input version = do
  (previous_hash, b₁) ← parse parse_h256 (new raw_input)
  (previous_index, b₂) ← parse (parse_uint 4) b₁
  let is_coinbase = Hash.eq previous_hash Hash.zero
  fail_if (is_coinbase && not (previous_index == 2 ^ 32 - 1)) malformed_transaction
  (compact_size, b₃) ← parse parse_compact b₂
  (height, script_size, b₄) ←
      parse_coinbase_height (is_coinbase && eq_ℤ version (pos 2)) compact_size b₃
  (script, b₅) ← read script_size b₄
  fail_if (is_coinbase && ltb 100 (length script)) malformed_transaction
  (sequence, b₆) ← parse (parse_uint 4) b₅
  ok (
    record {
      previous_hash = previous_hash;
      previous_index = previous_index;
      coinbase = is_coinbase;
      height = height;
      script = script;
      sequence = sequence;
      witness = none;
    },
    b₆.position,
  )

-- `impl ParsableMeta<i32> for TransactionInput`
unfoldable pub parse_input : ℤ → Parsable TransactionInput
parse_input version raw position = do
  raw_input ← slice_from raw position
  parse_transaction_input raw_input version

unfoldable pub parse_transaction_output : List ℕ → Result Error (TransactionOutput × ℕ)
parse_transaction_output raw_output = do
  (value, b₁) ← parse (parse_int 8) (new raw_output)
  (script_size, b₂) ← parse parse_compact b₁
  fail_if (ltb 10000 script_size) malformed_transaction
  (script, b₃) ← read script_size b₂
  ok (record { value = value; script = script }, b₃.position)

-- `impl Parsable for TransactionOutput`
unfoldable pub parse_output : Parsable TransactionOutput
parse_output raw position = do
  raw_output ← slice_from raw position
  parse_transaction_output raw_output

abbrev pub with_witness : TransactionInput → List ℕ → TransactionInput
with_witness input witness = record input { witness = some witness }

-- The loop over `&mut inputs` that reads one `Vec<u8>` for each.
unfoldable pub parse_witnesses : List TransactionInput → Parse (List TransactionInput)
parse_witnesses [] b = ok ([], b)
parse_witnesses (input ∷ inputs) b = do
  (witness, b₁) ← parse (parse_vec (parse_uint 1)) b
  (rest, b₂) ← parse_witnesses inputs b₁
  ok (with_witness input witness ∷ rest, b₂)

-- The inputs, behind a flag byte where the first count is zero and a witness is allowed.
unfoldable pub parse_inputs :
    Bool → ℤ → BytesParser → Result Error (List TransactionInput × ℕ × BytesParser)
parse_inputs allow_witness version b = do
  (inputs, b₁) ← parse (parse_vec (parse_input version)) b
  if (length inputs == 0) && allow_witness
      then (do
        (flags, b₂) ← parse (parse_uint 1) b₁
        (inputs', b₃) ← parse (parse_vec (parse_input version)) b₂
        ok (inputs', flags, b₃))
      else ok (inputs, 0, b₁)

-- `if (flags & 1) != 0 && allow_witness`, where the bit is then cleared.
unfoldable pub parse_witness_part :
    Bool
    → ℕ
    → List TransactionInput
    → BytesParser
    → Result Error (List TransactionInput × ℕ × BytesParser)
parse_witness_part true flags inputs b = do
  (inputs', b') ← parse_witnesses inputs b
  ok (inputs', flags - 1, b')
parse_witness_part false flags inputs b = ok (inputs, flags, b)

unfoldable pub parse_transaction : List ℕ → Result Error Transaction
parse_transaction raw_transaction = do
  (version, b₁) ← parse (parse_int 4) (new raw_transaction)
  fail_if (not (eq_ℤ version (pos 1)) && not (eq_ℤ version (pos 2))) malformed_transaction
  let allow_witness = bit_and (from_signed 32 version) serialize_transaction_no_witness == 0
  (inputs, flags, b₂) ← parse_inputs allow_witness version b₁
  (outputs, b₃) ← parse (parse_vec parse_output) b₂
  (inputs', flags', b₄) ← parse_witness_part ((flags % 2 == 1) && allow_witness) flags inputs b₃
  (locktime_or_blockheight, b₅) ← parse (parse_uint 4) b₄
  fail_if (not (flags' == 0)) malformed_transaction
  let is_height = ltb locktime_or_blockheight 500000000
  ok (record {
    version = version;
    inputs = inputs';
    outputs = outputs;
    block_height = if is_height then some locktime_or_blockheight else none;
    locktime = if is_height then none else some locktime_or_blockheight;
  })

-- `Transaction::tx_id`
abbrev pub tx_id : Libraries → List ℕ → H256Le
tx_id lib raw_tx = Hash.sha256d_le lib raw_tx

unfoldable pub extract_value : Libraries → List ℕ → ℕ
extract_value lib raw_output = lib.extract_value raw_output
