-- ===== src/Bitcoin/Header.antt =====
-- crates/bitcoin/src/parser.rs: block headers, by the calls into crates/bitcoin-spv.
pub mod Fields
pub mod Written
use btc_parachain.Prelude.{ℕ, ◌+◌, ◌^◌, List, length, ltb, ◌==◌, if◌then◌else◌}
use btc_parachain.Prelude.Words.{from_le_bytes}
use btc_parachain.Prelude.Result.{Result, ok, panic, slice, fail_if, ◌>>=◌, ◌>>◌}
use btc_parachain.Libraries.{Libraries}
use btc_parachain.Bitcoin.Types.{eos, RawBlockHeader, BlockHeader, RichBlockHeader}
use btc_parachain.Bitcoin.Hash
use btc_parachain.Bitcoin.Hash.{H256Le}
use btc_parachain.Bitcoin.Bytes.{Parsable}

-- `copy_from_slice` into an array of 80 bytes panics at any other length.
unfoldable pub header_from_bytes : {E : Type 0} → List ℕ → Result E RawBlockHeader
header_from_bytes bytes = if length bytes == 80 then ok bytes else panic

module _ {E : Type 0} (lib : Libraries) (header : RawBlockHeader) where
  unfoldable pub extract_nonce : Result E ℕ
  extract_nonce = do nonce ← slice header 76 80; ok (from_le_bytes nonce)

  unfoldable pub extract_version : Result E ℕ
  extract_version = do version ← slice header 0 4; ok (from_le_bytes version)

  -- `U256::from_little_endian` takes at most 32 bytes, and panics at more.
  unfoldable pub extract_target : Result E ℕ
  extract_target =
      if ltb (lib.extract_target header) (2 ^ 256) then ok (lib.extract_target header) else panic

  unfoldable pub extract_previous_block_hash : Result E H256Le
  extract_previous_block_hash = Hash.from_bytes_le (lib.extract_prev_block_hash_le header)

  unfoldable pub extract_merkle_root : Result E H256Le
  extract_merkle_root = Hash.from_bytes_le (lib.extract_merkle_root_le header)

unfoldable pub extract_timestamp : Libraries → RawBlockHeader → ℕ
extract_timestamp lib header = lib.extract_timestamp header

unfoldable pub parse_block_header : {E : Type 0} → Libraries → RawBlockHeader → Result E BlockHeader
parse_block_header lib raw_header = do
  merkle_root ← extract_merkle_root lib raw_header
  target ← extract_target lib raw_header
  version ← extract_version lib raw_header
  nonce ← extract_nonce lib raw_header
  hash_prev_block ← extract_previous_block_hash lib raw_header
  ok (record {
    merkle_root = merkle_root;
    target = target;
    timestamp = extract_timestamp lib raw_header;
    version = version;
    hash_prev_block = hash_prev_block;
    nonce = nonce;
  })

-- `impl Parsable for BlockHeader`
unfoldable pub parse_header : Libraries → Parsable BlockHeader
parse_header lib raw position = do
  fail_if (ltb (length raw) (position + 80)) eos
  bytes ← slice raw position (position + 80)
  header_bytes ← header_from_bytes bytes
  block_header ← parse_block_header lib header_bytes
  ok (block_header, 80)

-- `RichBlockHeader::construct_rich_block_header`
unfoldable pub construct_rich_block_header :
    {E : Type 0} → Libraries → RawBlockHeader → ℕ → ℕ → Result E RichBlockHeader
construct_rich_block_header lib raw chain_ref block_height = do
  header ← header_from_bytes raw
  block_header ← parse_block_header lib header
  ok (record {
    block_hash = Hash.sha256d_le lib raw;
    block_header = block_header;
    block_height = block_height;
    chain_ref = chain_ref;
  })
