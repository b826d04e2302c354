-- ===== src/Bitcoin/Bytes.antt =====
-- crates/bitcoin/src/parser.rs: the stateful parser of raw bytes, and the types that parse
-- themselves from a position. Lengths and positions are below 2 ^ 63, so only a size that is read
-- from the input can wrap a position around.
pub mod Compact
pub mod Written
pub mod Sequence
use Prim.Native.Nat.{min}
use btc_parachain.Prelude.{
  ℕ, zero, suc, ◌+◌, ◌*◌, ◌/◌, ◌%◌, ◌^◌, Bool, List, [], ◌∷◌, length, ltb, ◌==◌, if◌then◌else◌,
}
use btc_parachain.Prelude.Int.{ℤ, to_signed}
use btc_parachain.Prelude.Words.{add64, from_le_bytes}
use btc_parachain.Prelude.Result.{Result, ok, index, slice, slice_from, fail_if, ◌>>=◌, ◌>>◌}
use btc_parachain.Bitcoin.Types.{Error, eos}
use btc_parachain.Bitcoin.Hash
use btc_parachain.Bitcoin.Hash.{H256Le}

-- `Parsable::parse`: the value at a position, and how many bytes it takes.
abbrev pub Parsable : Type 0 → Type 0
Parsable A = List ℕ → ℕ → Result Error (A × ℕ)

-- `make_parsable_int!` for the unsigned types, by their width in bytes.
unfoldable pub parse_uint : ℕ → Parsable ℕ
parse_uint bytes raw position = do
  fail_if (ltb (length raw) (position + bytes)) eos
  value_bytes ← slice raw position (position + bytes)
  ok (from_le_bytes value_bytes, bytes)

-- `make_parsable_int!` for the signed types.
unfoldable pub parse_int : ℕ → Parsable ℤ
parse_int bytes raw position = do
  (value, consumed) ← parse_uint bytes raw position
  ok (to_signed (8 * bytes) value, consumed)

-- The value of a compact integer and the number of bytes consumed.
unfoldable pub parse_compact_uint : List ℕ → Result Error (ℕ × ℕ)
parse_compact_uint varint = do
  first ← index varint 0
  if first == 0xfd
      then (do num_bytes ← slice varint 1 3; ok (from_le_bytes num_bytes, 3))
      else if first == 0xfe
      then (do num_bytes ← slice varint 1 5; ok (from_le_bytes num_bytes, 5))
      else if first == 0xff
      then (do num_bytes ← slice varint 1 9; ok (from_le_bytes num_bytes, 9))
      else ok (first, 1)

-- `impl Parsable for CompactUint`: at most three bytes are handed on.
unfoldable pub parse_compact : Parsable ℕ
parse_compact raw position = do
  varint ← slice raw position (min (position + 3) (length raw))
  parse_compact_uint varint

-- `impl Parsable for H256Le`
unfoldable pub parse_h256 : Parsable H256Le
parse_h256 raw position = do
  fail_if (ltb (length raw) (position + 32)) eos
  bytes ← slice raw position (position + 32)
  hash ← Hash.from_bytes_le bytes
  ok (hash, 32)

-- `impl Parsable for Vec<bool>`: the bits of one byte, the lowest first.
abbrev pub bit : ℕ → ℕ → Bool
bit byte i = byte / 2 ^ i % 2 == 1

unfoldable pub parse_flag_bits : Parsable (List Bool)
parse_flag_bits raw position = do
  byte ← index raw position
  ok (
    bit byte 0
        ∷ bit byte 1
        ∷ bit byte 2
        ∷ bit byte 3
        ∷ bit byte 4
        ∷ bit byte 5
        ∷ bit byte 6
        ∷ bit byte 7
        ∷ [],
    1,
  )

pub record BytesParser : Type 0 where
  pub raw_bytes : List ℕ
  pub position : ℕ

abbrev pub new : List ℕ → BytesParser
new bytes = record { raw_bytes = bytes; position = 0 }

-- What a method of the parser returns, and the parser after it. After an error it is dropped.
abbrev pub Parse : Type 0 → Type 0
Parse A = BytesParser → Result Error (A × BytesParser)

-- `BytesParser::parse`, and `parse_with` where the meta data is already given.
unfoldable pub parse : {A : Type 0} → Parsable A → Parse A
parse item b = do
  (result, bytes_consumed) ← item b.raw_bytes b.position
  ok (result, record b { position = b.position + bytes_consumed })

-- `BytesParser::read`
unfoldable pub read : ℕ → Parse (List ℕ)
read bytes_count b = do
  fail_if (ltb (length b.raw_bytes) (add64 b.position bytes_count)) eos
  bytes ← slice b.raw_bytes b.position (add64 b.position bytes_count)
  ok (bytes, record b { position = add64 b.position bytes_count })

-- The `for` loops that push one parsed item in each round.
unfoldable pub parse_items : {A : Type 0} → ℕ → Parsable A → Parse (List A)
parse_items zero item b = ok ([], b)
parse_items (suc rounds) item b = do
  (first, b₁) ← parse item b
  (rest, b₂) ← parse_items rounds item b₁
  ok (first ∷ rest, b₂)

-- `impl Parsable for Vec<T>`, and for `Vec<T>` with meta data.
unfoldable pub parse_vec : {A : Type 0} → Parsable A → Parsable (List A)
parse_vec item raw position = do
  bytes ← slice_from raw position
  (count, b) ← parse parse_compact (new bytes)
  (result, b') ← parse_items count item b
  ok (result, b'.position)
