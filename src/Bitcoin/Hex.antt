-- ===== src/Bitcoin/Hex.antt =====
-- The conversions of hashes in crates/bitcoin/src/types.rs and crates/bitcoin/src/utils.rs: text in
-- hexadecimal digits, and `H256` of the crate primitive-types.
use Prim.Native.String.{String, ◌++◌}
use btc_parachain.Prelude.{
  ℕ, ◌<◌, ◌≡◌, refl, ◌∙◌, Bool, true, List, length, ◌==◌, if◌then◌else◌, eq_bytes, arith,
}
use btc_parachain.Prelude.Result.{Result, ok, err, panic, ◌>>=◌}
use btc_parachain.Libraries.{Libraries, AllBytes}
use btc_parachain.Bitcoin.Types.{
  Error, eos, malformed_proof, invalid_proof, malformed_transaction, malformed_witness_output,
  malformed_p2pkh_output, malformed_p2sh_output, malformed_op_return_output,
  unsupported_output_format,
}
use btc_parachain.Bitcoin.Hash.{
  H256Le, eq, eq_refl, from_bytes_le, from_bytes_be, to_bytes_le, to_bytes_be, sha256d, sha256d_le,
}

-- What is called of the crates hex and bitcoin-spv. `deserialize_hex` fails on text that is not in
-- hexadecimal digits, and panics on text of less than two characters. What has been encoded is decoded,
-- with the prefix that `serialize_hex` writes or without.
pub record HexLibraries : Type 0 where
  pub encode : List ℕ → String
  pub serialize_hex : List ℕ → String
  pub deserialize_hex : String → Result (Unit {0}) (List ℕ)
  pub deserialize-serialize :
      (bs : List ℕ) → AllBytes bs → deserialize_hex (serialize_hex bs) ≡ ok bs
  pub deserialize-encode :
      (bs : List ℕ) → 0 < length bs → AllBytes bs → deserialize_hex (encode bs) ≡ ok bs

-- `unwrap()`
abbrev pub unwrap : {E F A : Type 0} → Result F A → Result E A
unwrap (ok a) = ok a
unwrap (err e) = panic
unwrap panic = panic

module _ (lib : Libraries) (hex : HexLibraries) where
  unfoldable pub from_hex_le : {E : Type 0} → String → Result E H256Le
  from_hex_le text = unwrap (hex.deserialize_hex text) >>= λ bytes. from_bytes_le bytes

  unfoldable pub from_hex_be : {E : Type 0} → String → Result E H256Le
  from_hex_be text = unwrap (hex.deserialize_hex text) >>= λ bytes. from_bytes_be lib bytes

  unfoldable pub to_hex_le : H256Le → String
  to_hex_le h = hex.serialize_hex (to_bytes_le h)

  unfoldable pub to_hex_be : H256Le → String
  to_hex_be h = hex.encode (to_bytes_be lib h)

  -- `impl Display for H256Le` and `impl LowerHex for H256Le`
  unfoldable pub display : H256Le → String
  display h = "0x" ++ to_hex_be h

  unfoldable pub lower_hex : H256Le → String
  lower_hex h = to_hex_be h

  -- A hash of 32 bytes is read back from its bytes in either order, and from its text in either order.
  pub from_hex-to_hex :
      {E : Type 0} (h : H256Le)
      → length h.content ≡ 32
      → AllBytes h.content
      → AllBytes (to_bytes_be lib h)
      → (from_bytes_le {E = E} (to_bytes_le h) ≡ ok h)
        × (from_bytes_be {E = E} lib (to_bytes_be lib h) ≡ ok h)
        × (from_hex_le {E = E} (to_hex_le h) ≡ ok h)
        × (from_hex_be {E = E} (to_hex_be h) ≡ ok h)
  unfolding from_hex_le from_hex_be to_hex_le to_hex_be
  from_hex-to_hex h width bytes bytes' =
      let back = lib.reverse_reverse h.content in
      let width' : length (to_bytes_be lib h) ≡ 32 = lib.reverse_width h.content ∙ width in
      (
        rw width refl,
        rw (back, width) refl,
        rw (hex.deserialize-serialize h.content bytes, width) refl,
        rw (hex.deserialize-encode (to_bytes_be lib h) (omega (arith, width')) bytes', back, width)
            refl,
      )

-- `H256`, whose bytes are in big-endian order.
pub record H256 : Type 0 where
  pub bytes : List ℕ

-- `H256::from_slice` panics at any other length than 32.
abbrev pub from_slice : {E : Type 0} → List ℕ → Result E H256
from_slice bytes = if length bytes == 32 then ok (record { bytes = bytes }) else panic

module _ {E : Type 0} (lib : Libraries) where
  unfoldable pub sha256d_be : List ℕ → Result E H256
  sha256d_be bytes = from_slice (sha256d lib bytes)

  unfoldable pub block_hash_be : List ℕ → Result E H256
  block_hash_be bytes = sha256d_be bytes

  -- `impl PartialEq<H256Le> for H256` and `impl PartialEq<H256> for H256Le`
  unfoldable pub eq_h256 : H256 → H256Le → Result E Bool
  eq_h256 h other = do bytes_le ← from_bytes_be lib h.bytes; ok (eq bytes_le other)

  unfoldable pub eq_h256_le : H256Le → H256 → Result E Bool
  eq_h256_le h other = eq_h256 other h

unfoldable pub block_hash_le : Libraries → List ℕ → H256Le
block_hash_le lib bytes = sha256d_le lib bytes

-- `impl Display for Error`
unfoldable pub message : Error → String
message eos = "reached EOS before parsing end"
message malformed_proof = "merkle proof is malformed"
message invalid_proof = "invalid merkle proof"
message malformed_transaction = "invalid transaction format"
message malformed_witness_output = "invalid witness output format"
message malformed_p2pkh_output = "invalid P2PKH output format"
message malformed_p2sh_output = "invalid P2SH output format"
message malformed_op_return_output = "invalid OP_RETURN output format"
message unsupported_output_format =
    "unsupported output type. Currently supported: Witness, P2PKH, P2SH"

module _ {E : Type 0} (lib : Libraries) where
  -- The bytes of a hash of 32 bytes in big-endian order are the `H256` that is equal to it.
  pub eq_h256-to_bytes_be :
      (h : H256Le)
      → length h.content ≡ 32
      → eq_h256_le {E = E} lib h (record { bytes = to_bytes_be lib h }) ≡ ok true
  unfolding eq_h256 eq_h256_le
  eq_h256-to_bytes_be h width = rw (lib.reverse_reverse h.content, width, eq_refl h) refl

  -- The double hash is not reversed for `sha256d_be`: it is equal to that of `sha256d_le` exactly if its
  -- bytes are the same in both orders.
  pub eq_h256-sha256d_be :
      (bytes : List ℕ)
      → (h : H256) × (sha256d_be {E = E} lib bytes ≡ ok h)
        × (eq_h256 {E = E} lib h (sha256d_le lib bytes)
            ≡ ok (eq_bytes (lib.reverse_endianness (sha256d lib bytes)) (sha256d lib bytes)))
  unfolding sha256d_be eq_h256 sha256d_le sha256d eq
  eq_h256-sha256d_be bytes =
      let d = lib.sha256 (lib.sha256 bytes) in
      let width = lib.sha256_width (lib.sha256 bytes) in
      let width' : length (lib.reverse_endianness d) ≡ 32 = lib.reverse_width d ∙ width in
      (record { bytes = d }, rw width refl, rw width' refl)
