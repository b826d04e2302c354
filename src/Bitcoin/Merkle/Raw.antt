-- ===== src/Bitcoin/Merkle/Raw.antt =====
-- The bytes of a merkle proof, as `gettxoutproof` of Bitcoin writes them, and what `MerkleProof::parse`
-- of crates/bitcoin/src/merkle.rs reads from them.
use mathlib.Core.List.{flatten}
use btc_parachain.Prelude.{ℕ, ◌^◌, ◌<◌, ◌≡◌, refl, Bool, List, [], ◌++◌, length, arith}
use btc_parachain.Prelude.Words.{to_le_bytes}
use btc_parachain.Prelude.Result.{ok}
use btc_parachain.Libraries.{Libraries}
use btc_parachain.Bitcoin.Types.{Error, BlockHeader}
use btc_parachain.Bitcoin.Hash.{H256Le}
use btc_parachain.Bitcoin.Header.{header_from_bytes, parse_block_header, parse_header}
use btc_parachain.Bitcoin.Bytes.{parse_uint, parse_compact, parse_h256, parse_flag_bits}
use btc_parachain.Bitcoin.Bytes.Compact.{compact_of, parse_compact-compact_of}
use btc_parachain.Bitcoin.Bytes.Written.{
  slice-at, enough, parse-at, parse_uint-at, parse_h256-at, parse_flag_bits-at, bytes_of,
}
use btc_parachain.Bitcoin.Bytes.Sequence.{AllGood, write_all, parse_items-at}
use btc_parachain.Bitcoin.Merkle.Parse.{parse_proof}

abbrev pub content_of : H256Le → List ℕ
content_of hash = hash.content

abbrev pub IsHash : H256Le → Type 0
IsHash hash = length hash.content ≡ 32

abbrev pub IsOctet : List Bool → Type 0
IsOctet bits = length bits ≡ 8

parse_header-at :
    (lib : Libraries) (bytes : List ℕ) (header : BlockHeader) (before rest : List ℕ)
    → length bytes ≡ 80
    → parse_block_header {E = Error} lib bytes ≡ ok header
    → parse_header lib (before ++ (bytes ++ rest)) (length before) ≡ ok (header, length bytes)
unfolding parse_header header_from_bytes
parse_header-at lib bytes header before rest width parsed =
    let there = slice-at {E = Error} before bytes rest in
    let there' = rw width at there in
    rw (enough before bytes rest 80 width, there', width, parsed) refl

-- A header of 80 bytes, the number of transactions in four bytes, and behind their numbers the hashes
-- and the flag bits, eight to a byte.
abbrev pub raw_of : List ℕ → ℕ → List H256Le → List (List Bool) → List ℕ
raw_of header_bytes count hashes flags =
    header_bytes
    ++ (to_le_bytes 4 count
        ++ (compact_of (length hashes)
            ++ (write_all content_of hashes
                ++ (compact_of (length flags) ++ (write_all bytes_of flags ++ [])))))

-- What is written of a merkle proof is read back: a header of 80 bytes that parses, a number of
-- transactions below 2 ^ 32, fewer than 2 ^ 16 hashes of 32 bytes, and fewer than 2 ^ 16 bytes of
-- eight flag bits each.
pub parse_proof-raw_of :
    (lib : Libraries) (header_bytes : List ℕ) (header : BlockHeader) (count : ℕ)
    (hashes : List H256Le) (flags : List (List Bool))
    → length header_bytes ≡ 80
    → parse_block_header {E = Error} lib header_bytes ≡ ok header
    → count < 2 ^ 32
    → length hashes < 2 ^ 16
    → AllGood IsHash hashes
    → length flags < 2 ^ 16
    → AllGood IsOctet flags
    → parse_proof lib (raw_of header_bytes count hashes flags)
      ≡ ok (record {
        block_header = header;
        transactions_count = count;
        hashes = hashes;
        flag_bits = flatten flags;
      })
unfolding parse_proof
parse_proof-raw_of lib header_bytes header count hashes flags width parsed small few wide few'
      octets =
    let r₆ = write_all bytes_of flags ++ [] in
    let r₅ = compact_of (length flags) ++ r₆ in
    let r₄ = write_all content_of hashes ++ r₅ in
    let r₃ = compact_of (length hashes) ++ r₄ in
    let r₂ = to_le_bytes 4 count ++ r₃ in
    let b₁ = [] ++ header_bytes in
    let b₂ = b₁ ++ to_le_bytes 4 count in
    let b₃ = b₂ ++ compact_of (length hashes) in
    let b₄ = b₃ ++ write_all content_of hashes in
    let b₅ = b₄ ++ compact_of (length flags) in
    let e₁ =
      parse-at (parse_header lib) header [] header_bytes r₂
        (parse_header-at lib header_bytes header [] r₂ width parsed) in
    let e₂ =
      parse-at (parse_uint 4) count b₁ (to_le_bytes 4 count) r₃
        (parse_uint-at 4 count b₁ r₃ (omega (arith, small))) in
    let e₃ =
      parse-at parse_compact (length hashes) b₂ (compact_of (length hashes)) r₄
        (parse_compact-compact_of (length hashes) b₂ r₄ few) in
    let e₄ =
      parse_items-at parse_h256 content_of IsHash
        (λ hash w before rest. parse_h256-at hash before rest w) hashes b₃ r₅ wide in
    let e₅ =
      parse-at parse_compact (length flags) b₄ (compact_of (length flags)) r₆
        (parse_compact-compact_of (length flags) b₄ r₆ few') in
    let e₆ =
      parse_items-at parse_flag_bits bytes_of IsOctet
        (λ bits w before rest. parse_flag_bits-at bits before rest w) flags b₅ [] octets in
    rw (e₁, e₂, e₃, e₄, e₅, e₆) refl
