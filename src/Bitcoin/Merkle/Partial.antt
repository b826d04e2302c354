-- ===== src/Bitcoin/Merkle/Partial.antt =====
-- Partial merkle trees as Bitcoin builds them, and the proofs that they are written to. The reader of
-- such a proof is crates/bitcoin/src/merkle.rs.
use btc_parachain.Prelude.{
  ℕ, zero, suc, ◌+◌, ◌*◌, ◌^◌, ◌≤◌, ◌<◌, ◌≡◌, refl, ap, ◌∙◌, Bool, true, false, Option, some, none,
  List, [], ◌∷◌, ◌++◌, length, drop, get_elem?, drop-append, length-append, arith, if◌then◌else◌,
}
use btc_parachain.Libraries.{Libraries}
use btc_parachain.Bitcoin.Hash.{H256Le}
use btc_parachain.Bitcoin.Merkle.Steps.{node}

-- A transaction, matched or not; a subtree without a match, by its hash; a node with one child, at the
-- end of a level of odd width, or with two.
pub data PartialTree : Type 0 where
  leaf : (matched : Bool) (hash : H256Le) → PartialTree
  pruned : (hash : H256Le) → PartialTree
  lone : (left : PartialTree) → PartialTree
  branch : (left right : PartialTree) → PartialTree

-- The flag bits and the hashes of the proof, from the root down, left before right.
abbrev pub bits : PartialTree → List Bool
bits (leaf matched hash) = matched ∷ []
bits (pruned hash) = false ∷ []
bits (lone left) = true ∷ bits left
bits (branch left right) = true ∷ (bits left ++ bits right)

abbrev pub hashes_of : PartialTree → List H256Le
hashes_of (leaf matched hash) = hash ∷ []
hashes_of (pruned hash) = hash ∷ []
hashes_of (lone left) = hashes_of left
hashes_of (branch left right) = hashes_of left ++ hashes_of right

abbrev pub root_of : Libraries → PartialTree → H256Le
root_of lib (leaf matched hash) = hash
root_of lib (pruned hash) = hash
root_of lib (lone left) = node lib (root_of lib left) (root_of lib left)
root_of lib (branch left right) = node lib (root_of lib left) (root_of lib right)

abbrev pub last_of : {A : Type 0} → Option A → Option A → Option A
last_of a none = a
last_of a (some b) = some b

-- The last matched transaction below a node at `pos` of its level, with its position in the block.
abbrev pub marked : ℕ → PartialTree → Option (ℕ × H256Le)
marked pos (leaf matched hash) = if matched then some (pos, hash) else none
marked pos (pruned hash) = none
marked pos (lone left) = marked (pos * 2) left
marked pos (branch left right) = last_of (marked (pos * 2) left) (marked (pos * 2 + 1) right)

-- The tree has the form that a block of `count` transactions gives to a node at `pos` of the level
-- `height`: its leaves are at the level 0, and a right child is there exactly if it is in the block.
abbrev pub Fits : ℕ → ℕ → ℕ → PartialTree → Type 0
Fits count height pos (leaf matched hash) = height ≡ 0
Fits count height pos (pruned hash) = 0 < height
Fits count height pos (lone left) =
    (below : ℕ) × (height ≡ suc below)
    × (count ≤ (pos * 2 + 1) * 2 ^ below)
    × Fits count below (pos * 2) left
Fits count height pos (branch left right) =
    (below : ℕ) × (height ≡ suc below)
    × ((pos * 2 + 1) * 2 ^ below < count)
    × Fits count below (pos * 2) left
    × Fits count below (pos * 2 + 1) right

-- Every hash has a bit of its own.
pub length-hashes_of-le : (tree : PartialTree) → length (hashes_of tree) ≤ length (bits tree)
length-hashes_of-le (leaf matched hash) = omega arith
length-hashes_of-le (pruned hash) = omega arith
length-hashes_of-le (lone left) = omega (arith, length-hashes_of-le left)
length-hashes_of-le (branch left right) = omega (
  arith,
  length-hashes_of-le left,
  length-hashes_of-le right,
  length-append (hashes_of left) (hashes_of right),
  length-append (bits left) (bits right),
)

module _ {A : Type 0} where
  drop-add : (n m : ℕ) (xs : List A) → drop (n + m) xs ≡ drop m (drop n xs)
  drop-add zero m xs = let e : 0 + m ≡ m = omega arith in ap (λ k. drop k xs) e
  drop-add (suc n) m [] = let e : suc n + m ≡ suc (n + m) = omega arith in rw e (drop_nil m)
    where
      drop_nil : (m : ℕ) → [] ≡ drop {A = A} m []
      drop_nil zero = refl
      drop_nil (suc m) = refl
  drop-add (suc n) m (x ∷ xs) =
      let e : suc n + m ≡ suc (n + m) = omega arith in ap (λ k. drop k (x ∷ xs)) e ∙ drop-add n m xs

  -- Past the items that stand at a position.
  pub drop_past : (n : ℕ) (xs ys zs : List A) → drop n xs ≡ ys ++ zs → drop (n + length ys) xs ≡ zs
  drop_past n xs ys zs h = drop-add n (length ys) xs ∙ ap (drop (length ys)) h ∙ drop-append ys zs

  pub get_elem?-drop :
      (n : ℕ) (xs : List A) (x : A) (rest : List A) → drop n xs ≡ x ∷ rest → get_elem? xs n ≡ some x
  get_elem?-drop zero [] x rest h = absurd (ground (arith, h))
  get_elem?-drop (suc n) [] x rest h = absurd (ground (arith, h))
  get_elem?-drop zero (y ∷ xs) x rest h = ground (arith, h)
  get_elem?-drop (suc n) (y ∷ xs) x rest h = get_elem?-drop n xs x rest h
