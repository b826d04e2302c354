-- ===== src/Bitcoin/Merkle/Honest.antt =====
-- The raw proof that is written from a partial tree of a block, and that crates/bitcoin/src/merkle.rs
-- reads and verifies it.
use mathlib.Core.List.{flatten}
use btc_parachain.Prelude.{
  ℕ, zero, suc, ◌+◌, ◌*◌, ◌/◌, ◌%◌, ◌^◌, ◌≤◌, ◌<◌, ◌≡◌, refl, ap, ◌∙◌, Bool, some, List, [], ◌∷◌,
  ◌++◌, length, take, drop, length-take, length-drop, length-append, arith,
}
use btc_parachain.Prelude.Result.{ok}
use btc_parachain.Libraries.{Libraries}
use btc_parachain.Bitcoin.Types.{Error, BlockHeader}
use btc_parachain.Bitcoin.Hash.{H256Le}
use btc_parachain.Bitcoin.Header.{parse_block_header}
use btc_parachain.Bitcoin.Bytes.Sequence.{AllGood}
use btc_parachain.Bitcoin.Merkle.{verify_proof, compute_tree_height, max_transactions_in_proof}
use btc_parachain.Bitcoin.Merkle.Parse.{parse_proof}
use btc_parachain.Bitcoin.Merkle.Partial.{
  PartialTree, bits, hashes_of, root_of, marked, Fits, length-hashes_of-le,
}
use btc_parachain.Bitcoin.Merkle.Completeness.{proof_of, verify_proof-proof_of}
use btc_parachain.Bitcoin.Merkle.Raw.{IsHash, IsOctet, raw_of, parse_proof-raw_of}

-- The first bits, eight by eight.
abbrev pub octets : ℕ → List Bool → List (List Bool)
octets zero flags = []
octets (suc n) flags = take 8 flags ∷ octets n (drop 8 flags)

take-drop : {A : Type 0} (n : ℕ) (items : List A) → take n items ++ drop n items ≡ items
take-drop zero items = refl
take-drop (suc n) [] = refl
take-drop (suc n) (x ∷ items) = ap (λ l. x ∷ l) (take-drop n items)

length-octets : (n : ℕ) (flags : List Bool) → length (octets n flags) ≡ n
length-octets zero flags = refl
length-octets (suc n) flags = ap suc (length-octets n (drop 8 flags))

octets-IsOctet :
    (n : ℕ) (flags : List Bool) → length flags ≡ n * 8 → AllGood IsOctet (octets n flags)
octets-IsOctet zero flags size = tt
octets-IsOctet (suc n) flags size = (
  omega (arith, length-take 8 flags),
  octets-IsOctet n (drop 8 flags) (omega (arith, length-drop 8 flags)),
)

flatten-octets :
    (n : ℕ) (flags : List Bool) → length flags ≡ n * 8 → flatten (octets n flags) ≡ flags
unfolding flatten
flatten-octets zero [] size = refl
flatten-octets zero (b ∷ flags) size = absurd (omega (arith, size))
flatten-octets (suc n) flags size =
    ap (λ l. take 8 flags ++ l)
      (flatten-octets n (drop 8 flags) (omega (arith, length-drop 8 flags)))
    ∙ take-drop 8 flags

abbrev pub raw_proof_of : List ℕ → ℕ → PartialTree → List Bool → List ℕ
raw_proof_of header_bytes count tree padding =
    raw_of header_bytes count (hashes_of tree)
      (octets ((length (bits tree) + length padding) / 8) (bits tree ++ padding))

-- A tree of a block with `count` transactions, of which the one at the position is the last that is
-- matched, and what fills its bits up to whole bytes.
pub record IsHonest (count : ℕ) (tree : PartialTree) (padding : List Bool) (position : ℕ)
    (tx_id : H256Le) (header : BlockHeader) : Type 0 where
  pub some_tx : 0 < count
  pub few : count ≤ max_transactions_in_proof
  pub fits : Fits count (compute_tree_height (proof_of header count tree padding)) 0 tree
  pub hashes : AllGood IsHash (hashes_of tree)
  pub small : length (bits tree) < 2 ^ 16
  pub short : length padding < 8
  pub whole : (length (bits tree) + length padding) % 8 ≡ 0
  pub matched : marked 0 tree ≡ some (position, tx_id)

module _ (lib : Libraries) (header_bytes : List ℕ) (header : BlockHeader) (count : ℕ)
    (tree : PartialTree) (padding : List Bool) (position : ℕ) (tx_id : H256Le)
    (width : length header_bytes ≡ 80)
    (parsed : parse_block_header {E = Error} lib header_bytes ≡ ok header)
    (h : IsHonest count tree padding position tx_id header) where
  honest_bytes : ℕ
  honest_bytes = (length (bits tree) + length padding) / 8

  pub raw_parsed :
      parse_proof lib (raw_proof_of header_bytes count tree padding)
      ≡ ok (proof_of header count tree padding)
  unfolding honest_bytes
  raw_parsed =
      let size : length (bits tree ++ padding) ≡ honest_bytes * 8 =
        omega (arith, h.whole, length-append (bits tree) padding) in
      let number = length-octets honest_bytes (bits tree ++ padding) in
      let one =
        parse_proof-raw_of lib header_bytes header count (hashes_of tree)
          (octets honest_bytes (bits tree ++ padding)) width parsed (omega (arith, h.few))
          (omega (arith, h.small, length-hashes_of-le tree)) h.hashes
          (omega (arith, number, h.small, h.short))
          (octets-IsOctet honest_bytes (bits tree ++ padding) size) in
      rw (flatten-octets honest_bytes (bits tree ++ padding) size) at one

  pub raw_verified :
      verify_proof lib (proof_of header count tree padding)
      ≡ ok (record {
        extracted_root = root_of lib tree;
        transaction_hash = tx_id;
        transaction_position = position;
      })
  raw_verified =
      verify_proof-proof_of lib header count tree padding position tx_id h.some_tx h.few h.fits
        h.short h.whole h.matched
