-- ===== src/Bitcoin/Merkle/Completeness.antt =====
-- The proof that is written from a partial tree of a block is accepted, with the root of the tree and
-- its last match (`traverse_and_extract`, `verify_proof` of crates/bitcoin/src/merkle.rs).
use mathlib.Core.List.{append_assoc, append-nil}
use btc_parachain.Prelude.{
  ℕ, zero, suc, ◌+◌, ◌*◌, ◌%◌, ◌^◌, ◌≤◌, ◌<◌, ◌≡◌, refl, sym, ◌∙◌, Bool, Bool-cases, true, false,
  Option, some, none, inl, inr, List, [], ◌∷◌, ◌++◌, length, ltb, lt→ltb, drop, get_elem?,
  lt-get_elem?, length-append, arith, if◌then◌else◌,
}
use btc_parachain.Prelude.Result.{ok}
use btc_parachain.Libraries.{Libraries}
use btc_parachain.Bitcoin.Hash.{H256Le}
use btc_parachain.Bitcoin.Types.{BlockHeader}
use btc_parachain.Bitcoin.Merkle.{
  MerkleProof, MerkleProofTraversal, take_hash, traverse_and_extract, compute_tree_width,
  compute_tree_height, max_transactions_in_proof, start, verify_proof,
}
use btc_parachain.Bitcoin.Merkle.Width.{
  compute_tree_height_least, compute_tree_width_lem, lt-div_iff, pow_pos,
}
use btc_parachain.Bitcoin.Merkle.Steps.{
  next_bit, child_bounds, traverse_two, traverse_one, right_inside,
}
use btc_parachain.Bitcoin.Merkle.Partial.{
  PartialTree, leaf, pruned, lone, branch, bits, hashes_of, root_of, last_of, marked, Fits,
  length-hashes_of-le, drop_past, get_elem?-drop,
}

module _ (lib : Libraries) (p : MerkleProof) where
  -- A part of the traversal records the last match below its node, if there is one.
  abbrev Marks : Option (ℕ × H256Le) → MerkleProofTraversal → MerkleProofTraversal → Type 0
  Marks none t t' = (t'.merkle_position ≡ t.merkle_position) × (t'.hash_position ≡ t.hash_position)
  Marks (some (q, hash)) t t' =
      (t'.merkle_position ≡ some q)
      × (i : ℕ) × (t'.hash_position ≡ some i)
      × (get_elem? p.hashes i ≡ some hash)

  Marks-trans :
      (a b : Option (ℕ × H256Le)) (t t₁ t₂ : MerkleProofTraversal)
      → Marks a t t₁
      → Marks b t₁ t₂
      → Marks (last_of a b) t t₂
  Marks-trans none none t t₁ t₂ (a, b) (c, d) = (c ∙ a, d ∙ b)
  Marks-trans (some (q, hash)) none t t₁ t₂ (a, i, b, e) (c, d) = (c ∙ a, i, d ∙ b, e)
  Marks-trans a (some m) t t₁ t₂ f g = g

  Marks-next_bit :
      (a : Option (ℕ × H256Le)) (t t' : MerkleProofTraversal)
      → Marks a (next_bit t) t'
      → Marks a t t'
  Marks-next_bit none t t' m = m
  Marks-next_bit (some (q, hash)) t t' m = m

  -- What the traversal of a tree returns and uses, where its bits and hashes come first.
  record Runs (height pos : ℕ) (tree : PartialTree) (t : MerkleProofTraversal) (rest : List Bool)
      (others : List H256Le) : Type 0 where
    after : MerkleProofTraversal
    run : traverse_and_extract lib p height pos t ≡ ok (root_of lib tree, after)
    uses_bits : after.bits_used ≡ t.bits_used + length (bits tree)
    uses_hashes : after.hashes_used ≡ t.hashes_used + length (hashes_of tree)
    next_bits : drop after.bits_used p.flag_bits ≡ rest
    next_hashes : drop after.hashes_used p.hashes ≡ others
    marks : Marks (marked pos tree) t after

  abbrev taken : Bool → ℕ → MerkleProofTraversal → MerkleProofTraversal
  taken matched pos t = record {
    bits_used = t.bits_used + 1;
    hashes_used = t.hashes_used + 1;
    merkle_position = if matched then some pos else t.merkle_position;
    hash_position = if matched then some t.hashes_used else t.hash_position;
  }

  module _ (pos : ℕ) (t : MerkleProofTraversal) (hash : H256Le) (rest : List Bool)
      (others : List H256Le) (at_hash : drop t.hashes_used p.hashes ≡ hash ∷ others) where
    here : get_elem? p.hashes t.hashes_used ≡ some hash
    here = get_elem?-drop t.hashes_used p.hashes hash others at_hash

    leaf_run :
        (matched : Bool)
        → drop t.bits_used p.flag_bits ≡ matched ∷ rest
        → traverse_and_extract lib p 0 pos t ≡ ok (hash, taken matched pos t)
    unfolding traverse_and_extract take_hash
    leaf_run matched at_bit = ground (
      arith,
      here,
      lt-get_elem? p.hashes t.hashes_used here,
      get_elem?-drop t.bits_used p.flag_bits matched rest at_bit,
    )

    pruned_run :
        (height : ℕ)
        → drop t.bits_used p.flag_bits ≡ false ∷ rest
        → traverse_and_extract lib p (suc height) pos t ≡ ok (hash, taken false pos t)
    unfolding traverse_and_extract take_hash
    pruned_run height at_bit = ground (
      arith,
      here,
      lt-get_elem? p.hashes t.hashes_used here,
      get_elem?-drop t.bits_used p.flag_bits false rest at_bit,
    )

    taken-Runs :
        (height : ℕ) (tree : PartialTree) (matched : Bool)
        → drop t.bits_used p.flag_bits ≡ matched ∷ rest
        → traverse_and_extract lib p height pos t ≡ ok (hash, taken matched pos t)
        → root_of lib tree ≡ hash
        → length (bits tree) ≡ 1
        → length (hashes_of tree) ≡ 1
        → marked pos tree ≡ (if matched then some (pos, hash) else none)
        → Runs height pos tree t rest others
    taken-Runs height tree matched at_bit run same one one' mark = record {
      after = taken matched pos t;
      run = rw same run;
      uses_bits = omega (arith, one);
      uses_hashes = omega (arith, one');
      next_bits = drop_past t.bits_used p.flag_bits (matched ∷ []) rest at_bit;
      next_hashes = drop_past t.hashes_used p.hashes (hash ∷ []) others at_hash;
      marks = rw mark (marks_of matched);
    }
      where
        marks_of : (m : Bool) → Marks (if m then some (pos, hash) else none) t (taken m pos t)
        marks_of true = (refl, t.hashes_used, refl, here)
        marks_of false = (refl, refl)

  module _ (small : p.transactions_count ≤ max_transactions_in_proof) where
    wide_level :
        (height q : ℕ)
        → height ≤ 15
        → q * 2 ^ height < p.transactions_count
        → ltb q (compute_tree_width p height) ≡ true
    wide_level height q le inside = lt→ltb _ _ (
        rw (compute_tree_width_lem p small height le)
          ((lt-div_iff q p.transactions_count (2 ^ height) (pow_pos height)).1 inside))

    narrow_level :
        (height q : ℕ)
        → height ≤ 15
        → p.transactions_count ≤ q * 2 ^ height
        → ltb q (compute_tree_width p height) ≡ false
    narrow_level height q le outside = elim (Bool-cases (ltb q (compute_tree_width p height))) [
      | inl wide ↦ absurd (omega (arith, right_inside lib p small height q le wide))
      | inr narrow ↦ narrow
    ]

    traverse-Runs :
        (tree : PartialTree) (height pos : ℕ) (t : MerkleProofTraversal) (rest : List Bool)
        (others : List H256Le)
        → height ≤ 15
        → pos * 2 ^ height < p.transactions_count
        → Fits p.transactions_count height pos tree
        → drop t.bits_used p.flag_bits ≡ bits tree ++ rest
        → drop t.hashes_used p.hashes ≡ hashes_of tree ++ others
        → Runs height pos tree t rest others
    traverse-Runs (leaf m x) zero pos t rest others le inside fits hb hh =
        taken-Runs pos t x rest others hh 0 (leaf m x) m hb (leaf_run pos t x rest others hh m hb)
          refl refl refl refl
    traverse-Runs (leaf m x) (suc h) pos t rest others le inside fits hb hh =
        absurd (omega (arith, fits))
    traverse-Runs (pruned x) zero pos t rest others le inside fits hb hh =
        absurd (omega (arith, fits))
    traverse-Runs (pruned x) (suc h) pos t rest others le inside fits hb hh =
        taken-Runs pos t x rest others hh (suc h) (pruned x) false hb
          (pruned_run pos t x rest others hh h hb) refl refl refl refl
    traverse-Runs (lone l) zero pos t rest others le inside (below, e, odd_level, fits) hb hh =
        absurd (omega (arith, e))
    traverse-Runs (lone l) (suc h) pos t rest others le inside (below, e, odd_level, fits) hb hh =
        let same : below ≡ h = omega (arith, e) in
        let (even, odd, left_inside) = child_bounds lib p h pos small inside in
        let r : Runs h (pos * 2) l (next_bit t) rest others =
          traverse-Runs l h (pos * 2) (next_bit t) rest others (omega (arith, le)) left_inside
            (rw same at fits) (drop_past t.bits_used p.flag_bits (true ∷ []) (bits l ++ rest) hb)
            hh in
        let narrow = narrow_level h (pos * 2 + 1) (omega (arith, le)) (rw same at odd_level) in
        let parent = get_elem?-drop t.bits_used p.flag_bits true (bits l ++ rest) hb in
        record {
          after = r.after;
          run = traverse_one lib p h pos t parent even odd (root_of lib l) r.after narrow r.run;
          uses_bits = omega (arith, r.uses_bits);
          uses_hashes = r.uses_hashes;
          next_bits = r.next_bits;
          next_hashes = r.next_hashes;
          marks = Marks-next_bit (marked (pos * 2) l) t r.after r.marks;
        }
    traverse-Runs (branch l r) zero pos t rest others le inside (below, e, in_block, fits_l, fits_r)
          hb hh =
        absurd (omega (arith, e))
    traverse-Runs (branch l r) (suc h) pos t rest others le inside
          (below, e, in_block, fits_l, fits_r) hb hh =
        let same : below ≡ h = omega (arith, e) in
        let (even, odd, left_inside) = child_bounds lib p h pos small inside in
        let right_in_block : (pos * 2 + 1) * 2 ^ h < p.transactions_count = rw same at in_block in
        let bits_after : drop (t.bits_used + 1) p.flag_bits ≡ bits l ++ (bits r ++ rest) =
          drop_past t.bits_used p.flag_bits (true ∷ []) (bits l ++ bits r ++ rest) hb
          ∙ append_assoc (bits l) (bits r) rest in
        let x : Runs h (pos * 2) l (next_bit t) (bits r ++ rest) (hashes_of r ++ others) =
          traverse-Runs l h (pos * 2) (next_bit t) (bits r ++ rest) (hashes_of r ++ others)
            (omega (arith, le)) left_inside (rw same at fits_l) bits_after
            (hh ∙ append_assoc (hashes_of l) (hashes_of r) others) in
        let y : Runs h (pos * 2 + 1) r x.after rest others =
          traverse-Runs r h (pos * 2 + 1) x.after rest others (omega (arith, le)) right_in_block
            (rw same at fits_r) x.next_bits x.next_hashes in
        let wide = wide_level h (pos * 2 + 1) (omega (arith, le)) right_in_block in
        let parent = get_elem?-drop t.bits_used p.flag_bits true (bits l ++ bits r ++ rest) hb in
        record {
          after = y.after;
          run =
              traverse_two lib p h pos t parent even odd (root_of lib l) (root_of lib r) x.after
                y.after wide x.run y.run;
          uses_bits = omega (arith, x.uses_bits, y.uses_bits, length-append (bits l) (bits r));
          uses_hashes =
              omega
                (arith, x.uses_hashes, y.uses_hashes, length-append (hashes_of l) (hashes_of r));
          next_bits = y.next_bits;
          next_hashes = y.next_hashes;
          marks = Marks-next_bit (marked pos (branch l r)) t y.after (
              Marks-trans (marked (pos * 2) l) (marked (pos * 2 + 1) r) (next_bit t) x.after y.after
                x.marks y.marks);
        }

-- The proof that is written from a tree: its bits, padded to whole bytes, and its hashes.
abbrev pub proof_of : BlockHeader → ℕ → PartialTree → List Bool → MerkleProof
proof_of header count tree padding = record {
  block_header = header;
  transactions_count = count;
  hashes = hashes_of tree;
  flag_bits = bits tree ++ padding;
}

-- A proof that is written from a partial tree is accepted, where the tree has the form of a block
-- with at least one and at most 16666 transactions, less than a byte of padding fills its bits up
-- to whole bytes, and a transaction is matched: the result is the root of the tree and the last
-- matched transaction with its position.
pub verify_proof-proof_of :
    (lib : Libraries) (header : BlockHeader) (count : ℕ) (tree : PartialTree) (padding : List Bool)
    (position : ℕ) (hash : H256Le)
    → 0 < count
    → count ≤ max_transactions_in_proof
    → Fits count (compute_tree_height (proof_of header count tree padding)) 0 tree
    → length padding < 8
    → (length (bits tree) + length padding) % 8 ≡ 0
    → marked 0 tree ≡ some (position, hash)
    → verify_proof lib (proof_of header count tree padding)
      ≡ ok (record {
        extracted_root = root_of lib tree;
        transaction_hash = hash;
        transaction_position = position;
      })
unfolding verify_proof
verify_proof-proof_of lib header count tree padding position hash some_tx small fits short whole
      mark =
    let p : MerkleProof = proof_of header count tree padding in
    let r : Runs lib p (compute_tree_height p) 0 tree start padding [] =
      traverse-Runs lib p small tree (compute_tree_height p) 0 start padding []
        (compute_tree_height_least p small).1 (omega (arith, some_tx)) fits refl
        (sym (append-nil (hashes_of tree))) in
    let (at, i, at_hash, is_hash) : Marks lib p (some (position, hash)) start r.after =
      rw mark at r.marks in
    ground (
      arith,
      r.run,
      r.uses_bits,
      r.uses_hashes,
      length-hashes_of-le tree,
      length-append (bits tree) padding,
      at,
      at_hash,
      is_hash,
    )
