-- ===== src/Bitcoin/Merkle/Block.antt =====
-- The merkle root of a block and the partial tree for one of its transactions, as Bitcoin computes them.
-- The reader of the proof is crates/bitcoin/src/merkle.rs.
use native.Mathlib.Nat.{pow-suc, div-div-eq-div-mul, div-lt_iff_lt-mul}
use btc_parachain.Prelude.{
  ℕ, zero, suc, ◌+◌, ◌*◌, ◌/◌, ◌^◌, ◌≤◌, ◌<◌, ◌≡◌, ◌≢◌, ◌⊎◌, inl, inr, refl, sym, ap, ◌∙◌,
  Bool-cases, true, false, some, none, List, [], ◌∷◌, ◌++◌, length, get_elem?, ltb, ltb→lt, ◌==◌,
  ==_iff, length-append, arith,
}
use btc_parachain.Libraries.{Libraries}
use btc_parachain.Bitcoin.Hash
use btc_parachain.Bitcoin.Hash.{H256Le}
use btc_parachain.Bitcoin.Bytes.Sequence.{AllGood}
use btc_parachain.Bitcoin.Merkle.Width.{pow_pos}
use btc_parachain.Bitcoin.Merkle.Steps.{node}
use btc_parachain.Bitcoin.Merkle.Partial.{
  PartialTree, leaf, pruned, lone, branch, bits, hashes_of, root_of, marked, Fits,
}
use btc_parachain.Bitcoin.Merkle.Raw.{IsHash}

AllGood-append : (a b : List H256Le) → AllGood IsHash a → AllGood IsHash b → AllGood IsHash (a ++ b)
AllGood-append [] b all all' = all'
AllGood-append (x ∷ a) b (one, all) all' = (one, AllGood-append a b all all')

module _ (lib : Libraries) (txs : List H256Le) where
  abbrev pub tx_at : ℕ → H256Le
  tx_at pos = elim (get_elem? txs pos) [ none ↦ Hash.zero | some hash ↦ hash ]

  -- The hash of a node at a position of a level. Where its right child is not in the block, the left one
  -- stands for it.
  abbrev pub hash_at : ℕ → ℕ → H256Le
  hash_at zero pos = tx_at pos
  hash_at (suc h) pos =
      node lib (hash_at h (pos * 2)) (elim (ltb ((pos * 2 + 1) * 2 ^ h) (length txs)) [
        | true ↦ hash_at h (pos * 2 + 1)
        | false ↦ hash_at h (pos * 2)
      ])

  module _ (i : ℕ) where
    -- The part of the tree below a node: only the nodes above the transaction `i` are opened.
    abbrev pub tree_at : ℕ → ℕ → PartialTree
    tree_at zero pos = leaf (i == pos) (tx_at pos)
    tree_at (suc h) pos = elim (i / 2 ^ suc h == pos) [
      | false ↦ pruned (hash_at (suc h) pos)
      | true ↦ elim (ltb ((pos * 2 + 1) * 2 ^ h) (length txs)) [
        | true ↦ branch (tree_at h (pos * 2)) (tree_at h (pos * 2 + 1))
        | false ↦ lone (tree_at h (pos * 2))
      ]
    ]

    -- What a part of the tree is to be, where the transaction `i` is matched.
    pub record IsPart (h pos : ℕ) (tree : PartialTree) : Type 0 where
      pub fits : Fits (length txs) h pos tree
      pub root : root_of lib tree ≡ hash_at h pos
      pub on_path : i / 2 ^ h ≡ pos → marked pos tree ≡ some (i, tx_at i)
      pub off_path : i / 2 ^ h ≢ pos → marked pos tree ≡ none
      pub few : length (bits tree) ≤ 2 * h + 1
      pub one : i / 2 ^ h ≢ pos → length (bits tree) ≡ 1
      pub hashes : AllGood IsHash (hashes_of tree)

    module _ (wide : AllGood IsHash txs) (in_block : i < length txs) where
      tx_at-IsHash :
          (l : List H256Le) (pos : ℕ)
          → AllGood IsHash l
          → IsHash (elim (get_elem? l pos) as (λ o. H256Le) [ none ↦ Hash.zero | some hash ↦ hash ])
      tx_at-IsHash [] pos all = refl
      tx_at-IsHash (x ∷ l) zero (one, all) = one
      tx_at-IsHash (x ∷ l) (suc pos) (one, all) = tx_at-IsHash l pos all

      hash_at-IsHash : (h pos : ℕ) → IsHash (hash_at h pos)
      hash_at-IsHash zero pos = tx_at-IsHash txs pos wide
      hash_at-IsHash (suc h) pos = lib.merkle_step_width _ _

      -- The node above a node.
      above : (h : ℕ) → i / 2 ^ suc h ≡ i / 2 ^ h / 2
      above h = rw pow-suc (sym (div-div-eq-div-mul i (2 ^ h) 2))

      apart : (a b : ℕ) → a ≢ b → (a == b) ≡ false
      apart a b other = elim (Bool-cases (a == b)) [
        | inl same ↦ absurd (other ((==_iff a b).0 same))
        | inr differ ↦ differ
      ]

      leaf-IsPart : (pos : ℕ) → IsPart 0 pos (tree_at 0 pos)
      leaf-IsPart pos =
          let e : i / 2 ^ 0 ≡ i = omega arith in
          record {
            fits = refl;
            root = refl;
            on_path = λ same.
                let same' : i ≡ pos = sym e ∙ same in
                rw ((==_iff i pos).1 same') (ap (λ k. some (k, tx_at k)) (sym same'));
            off_path = λ other. rw (apart i pos (λ same. other (e ∙ same))) refl;
            few = omega arith;
            one = λ other. refl;
            hashes = (tx_at-IsHash txs pos wide, tt);
          }

      module _ (h pos : ℕ) where
        pruned-IsPart : i / 2 ^ suc h ≢ pos → IsPart (suc h) pos (pruned (hash_at (suc h) pos))
        pruned-IsPart other = record {
          fits = omega arith;
          root = refl;
          on_path = λ same. absurd (other same);
          off_path = λ _. refl;
          few = omega arith;
          one = λ _. refl;
          hashes = (hash_at-IsHash (suc h) pos, tt);
        }

        lone-IsPart :
            (on : i / 2 ^ suc h ≡ pos)
            → (alone : ltb ((pos * 2 + 1) * 2 ^ h) (length txs) ≡ false)
            → IsPart h (pos * 2) (tree_at h (pos * 2))
            → IsPart (suc h) pos (lone (tree_at h (pos * 2)))
        lone-IsPart on alone left = record {
          fits = (h, refl, ground (arith, alone), left.fits);
          root = rw (alone, left.root) refl;
          on_path = λ _. left.on_path here;
          off_path = λ other. absurd (other on);
          few = omega (arith, left.few);
          one = λ other. absurd (other on);
          hashes = left.hashes;
        }
          where
            here : i / 2 ^ h ≡ pos * 2
            here =
                let bound : length txs ≤ (pos * 2 + 1) * 2 ^ h = ground (arith, alone) in
                let below : i / 2 ^ h < pos * 2 + 1 =
                  (div-lt_iff_lt-mul (pow_pos h)).1 (omega (arith, bound, in_block)) in
                omega (arith, below, on, above h)

        branch-IsPart :
            (on : i / 2 ^ suc h ≡ pos)
            → (both : ltb ((pos * 2 + 1) * 2 ^ h) (length txs) ≡ true)
            → IsPart h (pos * 2) (tree_at h (pos * 2))
            → IsPart h (pos * 2 + 1) (tree_at h (pos * 2 + 1))
            → IsPart (suc h) pos (branch (tree_at h (pos * 2)) (tree_at h (pos * 2 + 1)))
        branch-IsPart on both left right = record {
          fits = (h, refl, ltb→lt _ _ both, left.fits, right.fits);
          root = rw (both, left.root, right.root) refl;
          on_path = λ _. marks;
          off_path = λ other. absurd (other on);
          few = fewer;
          one = λ other. absurd (other on);
          hashes =
              AllGood-append (hashes_of (tree_at h (pos * 2))) (hashes_of (tree_at h (pos * 2 + 1)))
                left.hashes right.hashes;
        }
          where
            side : (i / 2 ^ h ≡ pos * 2) ⊎ (i / 2 ^ h ≡ pos * 2 + 1)
            side = elim (Bool-cases (i / 2 ^ h == pos * 2)) [
              | inl e ↦ inl ((==_iff _ _).0 e)
              | inr e ↦ inr (ground (arith, e, on, above h))
            ]

            marks :
                marked pos (branch (tree_at h (pos * 2)) (tree_at h (pos * 2 + 1)))
                ≡ some (i, tx_at i)
            marks = elim side [
              | inl e ↦ rw (right.off_path (λ f. absurd (omega (arith, e, f))), left.on_path e) refl
              | inr e ↦ rw (right.on_path e) refl
            ]

            fewer :
                length (bits (branch (tree_at h (pos * 2)) (tree_at h (pos * 2 + 1))))
                ≤ 2 * suc h + 1
            fewer =
                let sum =
                  length-append (bits (tree_at h (pos * 2))) (bits (tree_at h (pos * 2 + 1))) in
                elim side [
                  | inl e ↦
                      omega (arith, sum, left.few, right.one (λ f. absurd (omega (arith, e, f))))
                  | inr e ↦
                      omega (arith, sum, right.few, left.one (λ f. absurd (omega (arith, e, f))))
                ]

      -- Every part of the tree for a transaction of the block.
      pub tree_at-IsPart : (h pos : ℕ) → IsPart h pos (tree_at h pos)
      tree_at-IsPart zero pos = leaf-IsPart pos
      tree_at-IsPart (suc h) pos = elim (Bool-cases (i / 2 ^ suc h == pos)) [
        | inr off ↦
            rw (tree_at, off) (pruned-IsPart h pos (λ same. absurd (ground (arith, off, same))))
        | inl on ↦
            let on' = (==_iff (i / 2 ^ suc h) pos).0 on in
            elim (Bool-cases (ltb ((pos * 2 + 1) * 2 ^ h) (length txs))) [
              | inr alone ↦
                  rw (tree_at, on, alone) (lone-IsPart h pos on' alone (tree_at-IsPart h (pos * 2)))
              | inl both ↦
                  rw (tree_at, on, both)
                    (branch-IsPart h pos on' both (tree_at-IsPart h (pos * 2))
                      (tree_at-IsPart h (pos * 2 + 1)))
            ]
      ]
