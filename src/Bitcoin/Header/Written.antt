-- ===== src/Bitcoin/Header/Written.antt =====
-- The 80 bytes of a block header, and what `parse_block_header` of crates/bitcoin/src/parser.rs reads
-- of them.
use btc_parachain.Prelude.{
  ℕ, zero, suc, ◌-◌, ◌*◌, ◌/◌, ◌^◌, ◌<◌, ◌≡◌, refl, ◌∙◌, List, [], ◌∷◌, ◌++◌, length, arith,
}
use btc_parachain.Prelude.Words.{
  from_le_bytes, to_le_bytes, length-to_le_bytes, from_le_bytes-to_le_bytes,
}
use btc_parachain.Prelude.Result.{ok}
use btc_parachain.Libraries.{Libraries, AllBytes}
use btc_parachain.Bitcoin.Types.{RawBlockHeader, BlockHeader}
use btc_parachain.Bitcoin.Header.{parse_block_header}
use btc_parachain.Bitcoin.Header.Fields.{ReadsFields, fields, parse_fields}

-- A header of the Bitcoin network, whose target has a mantissa and an exponent.
pub record IsWritable (mantissa exponent : ℕ) (h : BlockHeader) : Type 0 where
  pub root_width : length h.merkle_root.content ≡ 32
  pub root_bytes : AllBytes h.merkle_root.content
  pub prev_width : length h.hash_prev_block.content ≡ 32
  pub prev_bytes : AllBytes h.hash_prev_block.content
  pub small_version : h.version < 2 ^ 32
  pub small_time : h.timestamp < 2 ^ 32
  pub small_nonce : h.nonce < 2 ^ 32
  pub small_mantissa : mantissa < 2 ^ 24
  pub small_exponent : exponent < 256
  pub is_target : h.target ≡ mantissa * 256 ^ (exponent - 3)
  pub small_target : h.target < 2 ^ 256

AllBytes-append : (xs ys : List ℕ) → AllBytes xs → AllBytes ys → AllBytes (xs ++ ys)
AllBytes-append [] ys left right = right
AllBytes-append (x ∷ xs) ys (one, left) right = (one, AllBytes-append xs ys left right)

AllBytes-to_le_bytes : (n x : ℕ) → AllBytes (to_le_bytes n x)
unfolding to_le_bytes
AllBytes-to_le_bytes zero x = tt
AllBytes-to_le_bytes (suc n) x = (omega arith, AllBytes-to_le_bytes n (x / 256))

-- The 80 bytes of a header: the version, the hash of the previous block, the merkle root, the time,
-- the mantissa and the exponent of the target, and the nonce, the lowest byte of each number first.
abbrev pub write_header : ℕ → ℕ → BlockHeader → RawBlockHeader
write_header mantissa exponent h =
    fields (to_le_bytes 4 h.version) h.hash_prev_block.content h.merkle_root.content
      (to_le_bytes 4 h.timestamp) (to_le_bytes 3 mantissa) (to_le_bytes 1 exponent)
      (to_le_bytes 4 h.nonce)

write_header-AllBytes :
    (mantissa exponent : ℕ) (h : BlockHeader)
    → IsWritable mantissa exponent h
    → AllBytes (write_header mantissa exponent h)
write_header-AllBytes mantissa exponent h good =
    let word = AllBytes-to_le_bytes 4 in
    AllBytes-append _ _ (word h.version) (
      AllBytes-append _ _ good.prev_bytes (
        AllBytes-append _ _ good.root_bytes (
          AllBytes-append _ _ (word h.timestamp) (
            AllBytes-append _ _ (AllBytes-to_le_bytes 3 mantissa) (
              AllBytes-append _ _ (AllBytes-to_le_bytes 1 exponent)
                (AllBytes-append _ [] (word h.nonce) tt))))))

-- The 80 bytes of a header are parsed to that header, without an error or a panic, where bitcoin-spv
-- reads the fields as it documents: the version, the time and the nonce are below 2 ^ 32, the previous
-- hash and the merkle root have 32 bytes, and the target is below 2 ^ 256 and is a mantissa of 3 bytes
-- times 256 to the exponent, a byte, less 3, or to 0 for an exponent below 3.
pub parse_block_header-write_header :
    {E : Type 0} (lib : Libraries)
    → ReadsFields lib
    → (mantissa exponent : ℕ) (h : BlockHeader) → IsWritable mantissa exponent h
    → parse_block_header {E = E} lib (write_header mantissa exponent h) ≡ ok h
parse_block_header-write_header {E} lib reads mantissa exponent h good =
    let m = from_le_bytes-to_le_bytes 3 mantissa (omega (arith, good.small_mantissa)) in
    let e = from_le_bytes-to_le_bytes 1 exponent (omega (arith, good.small_exponent)) in
    let v = from_le_bytes-to_le_bytes 4 h.version (omega (arith, good.small_version)) in
    let t = from_le_bytes-to_le_bytes 4 h.timestamp (omega (arith, good.small_time)) in
    let n = from_le_bytes-to_le_bytes 4 h.nonce (omega (arith, good.small_nonce)) in
    let small : from_le_bytes (to_le_bytes 3 mantissa)
          * 256 ^ (from_le_bytes (to_le_bytes 1 exponent) - 3)
        < 2 ^ 256 =
      rw (m, e, ← good.is_target) good.small_target in
    parse_fields (to_le_bytes 4 h.version) h.hash_prev_block.content h.merkle_root.content
      (to_le_bytes 4 h.timestamp) (to_le_bytes 3 mantissa) (to_le_bytes 1 exponent)
      (to_le_bytes 4 h.nonce) (length-to_le_bytes 4 h.version) good.prev_width good.root_width
      (length-to_le_bytes 4 h.timestamp) (length-to_le_bytes 3 mantissa)
      (length-to_le_bytes 1 exponent) (length-to_le_bytes 4 h.nonce) lib reads
      (write_header-AllBytes mantissa exponent h good) small {E = E}
    ∙ rw (m, e, v, t, n, ← good.is_target) refl
