-- ===== src/Bitcoin/Merkle/Steps.antt =====
-- One call of `traverse_and_extract` of crates/bitcoin/src/merkle.rs, by what its calls return.
use native.Mathlib.Nat.{pow-suc}
use btc_parachain.Prelude.{
  ℕ, suc, ◌+◌, ◌*◌, ◌%◌, ◌^◌, ◌≤◌, ◌<◌, ◌≡◌, arith, ltb, true, false, some, ltb→lt, get_elem?,
}
use btc_parachain.Prelude.Words.{add32}
use btc_parachain.Prelude.Result.{ok}
use btc_parachain.Libraries.{Libraries}
use btc_parachain.Bitcoin.Hash.{H256Le}
use btc_parachain.Bitcoin.Merkle.{
  MerkleProof, MerkleProofTraversal, merkle_step, traverse_and_extract, compute_tree_width,
  max_transactions_in_proof,
}
use btc_parachain.Bitcoin.Merkle.Width.{compute_tree_width_lem, lt-div_iff, pow_pos}

-- The hash of an inner node.
abbrev pub node : Libraries → H256Le → H256Le → H256Le
node lib left right = record { content = lib.hash256_merkle_step left.content right.content }

abbrev pub next_bit : MerkleProofTraversal → MerkleProofTraversal
next_bit t = record t { bits_used = t.bits_used + 1 }

module _ (lib : Libraries) (p : MerkleProof) where
  -- A step from a node down to its children, inside the block and without wrap-around.
  pub child_bounds :
      (height pos : ℕ)
      → p.transactions_count ≤ max_transactions_in_proof
      → pos * 2 ^ suc height < p.transactions_count
      → (pos * 2 % 2 ^ 32 ≡ pos * 2)
        × (add32 (pos * 2) 1 ≡ pos * 2 + 1)
        × (pos * 2 * 2 ^ height < p.transactions_count)
  child_bounds height pos small inside =
      let e : pos * (2 ^ height * 2) < p.transactions_count = rw pow-suc at inside in
      let b : pos * 2 * 2 ^ height < p.transactions_count = omega (arith, e) in
      let c : pos * 2 ≤ p.transactions_count = grind (arith, pow_pos height) in
      (omega arith, omega arith, b)

  merkle_step_lem : (left right : H256Le) → merkle_step lib p left right ≡ ok (node lib left right)
  unfolding merkle_step
  merkle_step_lem left right = rw (lib.merkle_step_width left.content right.content)

  module _ (height pos : ℕ) (t : MerkleProofTraversal)
      (parent : get_elem? p.flag_bits t.bits_used ≡ some true) (even : pos * 2 % 2 ^ 32 ≡ pos * 2)
      (odd : add32 (pos * 2) 1 ≡ pos * 2 + 1) where
    -- The runs of an inner node that is a parent of a match, by what its children return.
    pub traverse_two :
        (left right : H256Le) (t₁ t₂ : MerkleProofTraversal)
        → ltb (pos * 2 + 1) (compute_tree_width p height) ≡ true
        → traverse_and_extract lib p height (pos * 2) (next_bit t) ≡ ok (left, t₁)
        → traverse_and_extract lib p height (pos * 2 + 1) t₁ ≡ ok (right, t₂)
        → traverse_and_extract lib p (suc height) pos t ≡ ok (node lib left right, t₂)
    unfolding traverse_and_extract
    traverse_two left right t₁ t₂ two el er = ground (arith, merkle_step_lem left right)

    pub traverse_one :
        (left : H256Le) (t₁ : MerkleProofTraversal)
        → ltb (pos * 2 + 1) (compute_tree_width p height) ≡ false
        → traverse_and_extract lib p height (pos * 2) (next_bit t) ≡ ok (left, t₁)
        → traverse_and_extract lib p (suc height) pos t ≡ ok (node lib left left, t₁)
    unfolding traverse_and_extract
    traverse_one left t₁ one el = ground (arith, merkle_step_lem left left)

  module _ (small : p.transactions_count ≤ max_transactions_in_proof) where
    -- A right child that the width admits is inside the block.
    pub right_inside :
        (height q : ℕ)
        → height ≤ 15
        → ltb q (compute_tree_width p height) ≡ true
        → q * 2 ^ height < p.transactions_count
    right_inside height q le h =
        (lt-div_iff q p.transactions_count (2 ^ height) (pow_pos height)).0
          (rw (← compute_tree_width_lem p small height le) (ltb→lt _ _ h))
