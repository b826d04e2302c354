-- ===== src/Bitcoin/Merkle/Parse.antt =====
-- `MerkleProof::parse` of crates/bitcoin/src/merkle.rs.
use mathlib.Core.List.{flatten}
use btc_parachain.Prelude.{ℕ, List}
use btc_parachain.Prelude.Result.{Result, ok, ◌>>=◌}
use btc_parachain.Libraries.{Libraries}
use btc_parachain.Bitcoin.Types.{Error}
use btc_parachain.Bitcoin.Bytes.{
  new, parse, parse_uint, parse_compact, parse_h256, parse_flag_bits, parse_items,
}
use btc_parachain.Bitcoin.Header.{parse_header}
use btc_parachain.Bitcoin.Merkle.{MerkleProof}

unfoldable pub parse_proof : Libraries → List ℕ → Result Error MerkleProof
parse_proof lib merkle_proof = do
  (header, b₁) ← parse (parse_header lib) (new merkle_proof)
  (transactions_count, b₂) ← parse (parse_uint 4) b₁
  (hashes_count, b₃) ← parse parse_compact b₂
  (hashes, b₄) ← parse_items hashes_count parse_h256 b₃
  (flag_bits_count, b₅) ← parse parse_compact b₄
  (flag_bytes, b₆) ← parse_items flag_bits_count parse_flag_bits b₅
  ok (record {
    block_header = header;
    transactions_count = transactions_count;
    hashes = hashes;
    flag_bits = flatten flag_bytes;
  })
