-- ===== src/Bitcoin/Merkle/BlockProof.antt =====
-- The proof for one transaction of a block, for the reader in crates/bitcoin/src/merkle.rs.
use native.Mathlib.Nat.{div-lt_iff_lt-mul}
use btc_parachain.Prelude.{
  ℕ, ◌-◌, ◌/◌, ◌%◌, ◌^◌, ◌≤◌, ◌<◌, ◌≡◌, inl, inr, Bool, Bool-cases, false, List, length, ltb,
  ltb→lt, length-replicate, replicate, arith,
}
use btc_parachain.Libraries.{Libraries}
use btc_parachain.Bitcoin.Types.{BlockHeader}
use btc_parachain.Bitcoin.Hash.{H256Le}
use btc_parachain.Bitcoin.Bytes.Sequence.{AllGood}
use btc_parachain.Bitcoin.Merkle.Width.{pow_pos, compute_tree_height_least}
use btc_parachain.Bitcoin.Merkle.{max_transactions_in_proof, compute_tree_height}
use btc_parachain.Bitcoin.Merkle.Completeness.{proof_of}
use btc_parachain.Bitcoin.Merkle.Honest.{raw_proof_of, IsHonest}
use btc_parachain.Bitcoin.Merkle.Partial.{PartialTree, bits}
use btc_parachain.Bitcoin.Merkle.Raw.{IsHash}
use btc_parachain.Bitcoin.Merkle.Block.{tx_at, tree_at, tree_at-IsPart}

-- The height of the merkle tree of a block: the least level with one node.
abbrev pub IsHeight : ℕ → ℕ → Type 0
IsHeight count height = (count ≤ 2 ^ height) × ((k : ℕ) → k < height → 2 ^ k < count)

IsHeight-unique : (count h k : ℕ) → IsHeight count h → IsHeight count k → h ≡ k
IsHeight-unique count h k (a, b) (c, d) = elim (Bool-cases (ltb h k)) [
  | inl below ↦ absurd (omega (arith, a, d h (ltb→lt h k below)))
  | inr over ↦ elim (Bool-cases (ltb k h)) [
    | inl below ↦ absurd (omega (arith, c, b k (ltb→lt k h below)))
    | inr under ↦ ground (arith, over, under)
  ]
]

-- Zero bits up to a whole byte.
abbrev pub padding_of : List Bool → List Bool
padding_of flags = replicate ((8 - length flags % 8) % 8) false

-- The bytes of the proof for the transaction `i` of a block.
abbrev pub block_proof : Libraries → List H256Le → ℕ → ℕ → List ℕ → List ℕ
block_proof lib txs i height header_bytes =
    let tree = tree_at lib txs i height 0 in
    raw_proof_of header_bytes (length txs) tree (padding_of (bits tree))

module _ (lib : Libraries) (txs : List H256Le) (i height : ℕ) (header : BlockHeader) where
  abbrev tree_of : PartialTree
  tree_of = tree_at lib txs i height 0

  -- The tree for a transaction of a block gives an honest proof.
  pub tree_of-IsHonest :
      (wide : AllGood IsHash txs) (in_block : i < length txs)
      → length txs ≤ max_transactions_in_proof
      → IsHeight (length txs) height
      → IsHonest (length txs) tree_of (padding_of (bits tree_of)) i (tx_at lib txs i) header
  tree_of-IsHonest wide in_block few (low, least) =
      let p = proof_of header (length txs) tree_of (padding_of (bits tree_of)) in
      let (bound, fifteen, least') = compute_tree_height_least p few in
      let same : compute_tree_height p ≡ height =
        IsHeight-unique (length txs) (compute_tree_height p) height (bound, least') (low, least) in
      let part = tree_at-IsPart lib txs i wide in_block height 0 in
      let pad = length-replicate ((8 - length (bits tree_of) % 8) % 8) false in
      let below : i / 2 ^ height < 1 =
        (div-lt_iff_lt-mul (pow_pos height)).1 (omega (arith, low, in_block)) in
      let root_path : i / 2 ^ height ≡ 0 = omega (arith, below) in
      record {
        some_tx = omega (arith, in_block);
        few = few;
        fits = rw same part.fits;
        hashes = part.hashes;
        small = omega (arith, part.few, same, fifteen);
        short = omega (arith, pad);
        whole = omega (arith, pad);
        matched = part.on_path root_path;
      }
