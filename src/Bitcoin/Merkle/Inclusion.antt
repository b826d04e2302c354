-- ===== src/Bitcoin/Merkle/Inclusion.antt =====
-- What an accepted proof shows: the matched transaction is a leaf below the extracted root, at the
-- reported position (`traverse_and_extract`, `verify_proof` of crates/bitcoin/src/merkle.rs).
use btc_parachain.Prelude.{
  ℕ, zero, suc, ◌+◌, ◌*◌, ◌%◌, ◌^◌, ◌≤◌, ◌<◌, ◌≡◌, refl, arith, ltb, inl, inr, true, false, some,
  Bool-cases, Option-cases, get_elem?,
}
use btc_parachain.Prelude.Words.{add32}
use btc_parachain.Prelude.Result.{Result, ok, Result-cases}
use btc_parachain.Libraries.{Libraries}
use btc_parachain.Bitcoin.Types.{Error}
use btc_parachain.Bitcoin.Hash.{H256Le}
use btc_parachain.Bitcoin.Merkle.{
  MerkleProof, MerkleProofTraversal, take_hash, traverse_and_extract, compute_tree_width,
  compute_tree_height, max_transactions_in_proof, start, verify_proof, ProofResult,
}
use btc_parachain.Bitcoin.Merkle.Steps.{
  node, next_bit, child_bounds, traverse_two, traverse_one, right_inside,
}
use btc_parachain.Bitcoin.Merkle.Width.{compute_tree_height_least}

-- `Includes lib height pos root q leaf`: a path of hashes leads from the node `root`, at `pos` of
-- the level `height`, down to the leaf `leaf` at position `q` of the block.
pub data Includes (lib : Libraries) : ℕ → ℕ → H256Le → ℕ → H256Le → Type 0 where
  here :
      {pos q : ℕ} {root leaf : H256Le} → pos ≡ q → root ≡ leaf → Includes lib zero pos root q leaf
  below_left :
      {height pos q : ℕ} {left right leaf : H256Le}
      → Includes lib height (pos * 2) left q leaf
      → Includes lib (suc height) pos (node lib left right) q leaf
  below_right :
      {height pos q : ℕ} {left right leaf : H256Le}
      → Includes lib height (pos * 2 + 1) right q leaf
      → Includes lib (suc height) pos (node lib left right) q leaf

pub Includes-along :
    {lib : Libraries} {height pos q : ℕ} {root root' leaf leaf' : H256Le}
    → root ≡ root'
    → leaf ≡ leaf'
    → Includes lib height pos root q leaf
    → Includes lib height pos root' q leaf'
Includes-along e f path = rw (← e) (rw (← f) path)

module _ (lib : Libraries) (p : MerkleProof) where
  -- What a part of the traversal has added: nothing, or a leaf of the proof below its node.
  data Found (height pos : ℕ) (root : H256Le) (t t' : MerkleProofTraversal) : Type 0 where
    nothing :
        t'.merkle_position ≡ t.merkle_position
        → t'.hash_position ≡ t.hash_position
        → Found height pos root t t'
    leaf_at :
        (q i : ℕ) (leaf : H256Le)
        → t'.merkle_position ≡ some q
        → t'.hash_position ≡ some i
        → get_elem? p.hashes i ≡ some leaf
        → q < p.transactions_count
        → Includes lib height pos root q leaf
        → Found height pos root t t'

  -- Two parts in a row: the second may overwrite what the first has found.
  Found-trans :
      {height pos : ℕ} {root : H256Le} (t t₁ t₂ : MerkleProofTraversal)
      → Found height pos root t t₁
      → Found height pos root t₁ t₂
      → Found height pos root t t₂
  Found-trans t t₁ t₂ f (leaf_at q i leaf a b c d e) = leaf_at q i leaf a b c d e
  Found-trans t t₁ t₂ (nothing a b) (nothing c d) = nothing (cc) (cc)
  Found-trans t t₁ t₂ (leaf_at q i leaf a b c d e) (nothing a' b') =
      leaf_at q i leaf (cc) (cc) c d e

  -- The count of bits used says nothing about leaves.
  Found-next_bit :
      {height pos : ℕ} {root : H256Le} (t t' : MerkleProofTraversal)
      → Found height pos root (next_bit t) t'
      → Found height pos root t t'
  Found-next_bit t t' (nothing a b) = nothing a b
  Found-next_bit t t' (leaf_at q i leaf a b c d e) = leaf_at q i leaf a b c d e

  -- What is found below a child is found below its parent.
  Found-left :
      {height pos : ℕ} {left : H256Le} (right : H256Le) {t t' : MerkleProofTraversal}
      → Found height (pos * 2) left t t'
      → Found (suc height) pos (node lib left right) t t'
  Found-left right (nothing a b) = nothing a b
  Found-left right (leaf_at q i leaf a b c d e) = leaf_at q i leaf a b c d (below_left e)

  Found-right :
      {height pos : ℕ} (left : H256Le) {right : H256Le} {t t' : MerkleProofTraversal}
      → Found height (pos * 2 + 1) right t t'
      → Found (suc height) pos (node lib left right) t t'
  Found-right left (nothing a b) = nothing a b
  Found-right left (leaf_at q i leaf a b c d e) = leaf_at q i leaf a b c d (below_right e)

  take_hash-skipped :
      (height pos : ℕ) (t : MerkleProofTraversal) (root : H256Le) (t' : MerkleProofTraversal)
      → take_hash p false pos t ≡ ok (root, t')
      → Found height pos root t t'
  unfolding take_hash
  take_hash-skipped height pos t root t' h = nothing (ground arith) (ground arith)

  take_hash-matched :
      (pos : ℕ) (t : MerkleProofTraversal) (root : H256Le) (t' : MerkleProofTraversal)
      → pos < p.transactions_count
      → take_hash p true pos t ≡ ok (root, t')
      → Found zero pos root t t'
  unfolding take_hash
  take_hash-matched pos t root t' inside h =
      leaf_at pos t.hashes_used root (ground arith) (ground arith) (ground arith) inside
        (here refl refl)

  module _ (height pos : ℕ) (t : MerkleProofTraversal)
      (parent : get_elem? p.flag_bits t.bits_used ≡ some true) (even : pos * 2 % 2 ^ 32 ≡ pos * 2)
      (odd : add32 (pos * 2) 1 ≡ pos * 2 + 1) where
    left_of_ok :
        (root : H256Le) (t' : MerkleProofTraversal)
        → traverse_and_extract lib p (suc height) pos t ≡ ok (root, t')
        → (left : H256Le) × (t₁ : MerkleProofTraversal) × (traverse_and_extract lib p height
              (pos * 2)
              (next_bit t)
            ≡ ok (left, t₁))
    unfolding traverse_and_extract
    left_of_ok root t' h =
        elim (Result-cases (traverse_and_extract lib p height (pos * 2) (next_bit t))) [
          | inl ((left, t₁), e) ↦ (left, t₁, e)
          | inr stop ↦ absurd (ground arith)
        ]

    right_of_ok :
        (root left : H256Le) (t' t₁ : MerkleProofTraversal)
        → traverse_and_extract lib p (suc height) pos t ≡ ok (root, t')
        → traverse_and_extract lib p height (pos * 2) (next_bit t) ≡ ok (left, t₁)
        → ltb (pos * 2 + 1) (compute_tree_width p height) ≡ true
        → (right : H256Le) × (t₂ : MerkleProofTraversal) × (traverse_and_extract lib p height
              (pos * 2 + 1)
              t₁
            ≡ ok (right, t₂))
    unfolding traverse_and_extract
    right_of_ok root left t' t₁ h el two =
        elim (Result-cases (traverse_and_extract lib p height (pos * 2 + 1) t₁)) [
          | inl ((right, t₂), e) ↦ (right, t₂, e)
          | inr stop ↦ absurd (ground arith)
        ]

  Found-result :
      {height pos : ℕ} {t : MerkleProofTraversal} (a b : H256Le) (s s' : MerkleProofTraversal)
      {r : Result Error (H256Le × MerkleProofTraversal)}
      → r ≡ ok (a, s)
      → r ≡ ok (b, s')
      → Found height pos a t s
      → Found height pos b t s'
  Found-result a b s s' e e' f =
      let same : a ≡ b = cc in let same_state : s ≡ s' = cc in rw (← same) (rw (← same_state) f)

  module _ (small : p.transactions_count ≤ max_transactions_in_proof) where
    -- Each call of the traversal adds nothing, or a leaf below the hash that it returns.
    traverse-Found :
        (height pos : ℕ) (t : MerkleProofTraversal) (root : H256Le) (t' : MerkleProofTraversal)
        → height ≤ 15
        → pos * 2 ^ height < p.transactions_count
        → traverse_and_extract lib p height pos t ≡ ok (root, t')
        → Found height pos root t t'
    unfolding traverse_and_extract
    traverse-Found zero pos t root t' le inside h =
        Found-next_bit t t' (elim (Option-cases (get_elem? p.flag_bits t.bits_used)) [
          | inl past ↦ absurd (ground arith)
          | inr (true, e) ↦ take_hash-matched pos (next_bit t) root t' (omega arith) (ground arith)
          | inr (false, e) ↦ take_hash-skipped zero pos (next_bit t) root t' (ground arith)
        ])
    traverse-Found (suc height) pos t root t' le inside h =
        Found-next_bit t t' (elim (Option-cases (get_elem? p.flag_bits t.bits_used)) [
          | inl past ↦ absurd (ground arith)
          | inr (false, e) ↦ take_hash-skipped (suc height) pos (next_bit t) root t' (ground arith)
          | inr (true, e) ↦
              let (even, odd, low) = child_bounds lib p height pos small inside in
              let (left, t₁, el) = left_of_ok height pos t e even odd root t' h in
              let found =
                traverse-Found height (pos * 2) (next_bit t) left t₁ (omega arith) low el in
              elim (Bool-cases (ltb (pos * 2 + 1) (compute_tree_width p height))) [
                | inl two ↦
                    let (right, t₂, er) =
                      right_of_ok height pos t e even odd root left t' t₁ h el two in
                    let again =
                      traverse-Found height (pos * 2 + 1) t₁ right t₂ (omega arith)
                        (right_inside lib p small height (pos * 2 + 1) (omega arith) two) er in
                    Found-result (node lib left right) root t₂ t'
                      (traverse_two lib p height pos t e even odd left right t₁ t₂ two el er) h
                      (Found-trans (next_bit t) t₁ t₂ (Found-left right found)
                        (Found-right left again))
                | inr one ↦
                    Found-result (node lib left left) root t₁ t'
                      (traverse_one lib p height pos t e even odd left t₁ one el) h
                      (Found-left left found)
              ]
        ])

module _ (lib : Libraries) (p : MerkleProof) where
  verify_proof_count :
      (r : ProofResult)
      → verify_proof lib p ≡ ok r
      → (0 < p.transactions_count) × (p.transactions_count ≤ max_transactions_in_proof)
  unfolding verify_proof
  verify_proof_count r h = ground arith

  Found-Includes :
      (r : ProofResult) (root : H256Le) (t : MerkleProofTraversal)
      → verify_proof lib p ≡ ok r
      → traverse_and_extract lib p (compute_tree_height p) 0 start ≡ ok (root, t)
      → Found lib p (compute_tree_height p) 0 root start t
      → (r.transaction_position < p.transactions_count)
        × Includes lib
            (compute_tree_height p)
            0
            r.extracted_root
            r.transaction_position
            r.transaction_hash
  unfolding verify_proof
  Found-Includes r root t h e (nothing a b) = absurd (ground arith)
  Found-Includes r root t h e (leaf_at q i leaf a b c d path) =
      let root_eq : r.extracted_root ≡ root = ground arith in
      let position_eq : r.transaction_position ≡ q = ground arith in
      let hash_eq : r.transaction_hash ≡ leaf = ground arith in
      rw (root_eq, position_eq, hash_eq) (d, path)

  -- An accepted proof shows an inclusion: its transaction count is in range, and from the extracted
  -- root a path of node hashes, as long as the tree is high, leads down to the transaction hash at
  -- the reported position, which is inside the block.
  pub verify_proof-Includes :
      (r : ProofResult)
      → verify_proof lib p ≡ ok r
      → (0 < p.transactions_count)
        × (p.transactions_count ≤ max_transactions_in_proof)
        × (r.transaction_position < p.transactions_count)
        × Includes lib
            (compute_tree_height p)
            0
            r.extracted_root
            r.transaction_position
            r.transaction_hash
  verify_proof-Includes r h =
      let (some_tx, few) = verify_proof_count r h in
      elim (Result-cases (traverse_and_extract lib p (compute_tree_height p) 0 start)) [
        | inl ((root, t), e) ↦
            let found =
              traverse-Found lib p few (compute_tree_height p) 0 start root t
                (compute_tree_height_least p few).1 (omega arith) e in
            let (inside, path) = Found-Includes r root t h e found in (some_tx, few, inside, path)
        | inr stop ↦ absurd (unfold verify_proof in ground arith)
      ]
