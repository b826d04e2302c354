-- ===== src/Containers/BTree.antt =====
-- `BTreeMap<u32, V>` as its entries and `BTreeSet<u32>` as its elements, in ascending order.
use btc_parachain.Prelude.{
  ℕ, ◌≡◌, refl, Bool, false, ◌||◌, Option, none, some, List, [], ◌∷◌, arith, ltb, ◌==◌,
  if◌then◌else◌,
}

abbrev pub BTreeMap : Type 0 → Type 0
BTreeMap V = List (ℕ × V)

module _ {V : Type 0} where
  abbrev pub get : ℕ → BTreeMap V → Option V
  get k [] = none
  get k ((j, v) ∷ m) = if k == j then some v else get k m

  abbrev pub insert : ℕ → V → BTreeMap V → BTreeMap V
  insert k v [] = (k, v) ∷ []
  insert k v ((j, w) ∷ m) =
      if ltb k j then (k, v) ∷ (j, w) ∷ m else if k == j then (k, v) ∷ m else (j, w) ∷ insert k v m

  -- The two halves of `split_off`: what stays, and what is returned.
  abbrev pub keys_below : ℕ → BTreeMap V → BTreeMap V
  keys_below key [] = []
  keys_below key ((j, v) ∷ m) =
      let rest = keys_below key m in if ltb j key then (j, v) ∷ rest else rest

  abbrev pub keys_from : ℕ → BTreeMap V → BTreeMap V
  keys_from key [] = []
  keys_from key ((j, v) ∷ m) =
      let rest = keys_from key m in if ltb j key then rest else (j, v) ∷ rest

  -- `append`: the entries of the second map replace those of the first.
  abbrev pub append : BTreeMap V → BTreeMap V → BTreeMap V
  append m [] = m
  append m ((j, v) ∷ n) = insert j v (append m n)

  pub get-insert :
      (j k : ℕ) (v : V) (m : BTreeMap V)
      → get j (insert k v m) ≡ (if j == k then some v else get j m)
  get-insert j k v [] = refl
  get-insert j k v ((i, w) ∷ m) = ground (arith, get-insert j k v m)

  pub get-keys_below :
      (j key : ℕ) (m : BTreeMap V)
      → get j (keys_below key m) ≡ (if ltb j key then get j m else none)
  get-keys_below j key [] = ground arith
  get-keys_below j key ((i, w) ∷ m) = ground (arith, get-keys_below j key m)

  pub get-keys_from :
      (j key : ℕ) (m : BTreeMap V) → get j (keys_from key m) ≡ (if ltb j key then none else get j m)
  get-keys_from j key [] = ground arith
  get-keys_from j key ((i, w) ∷ m) = ground (arith, get-keys_from j key m)

  abbrev pub or_else : Option V → Option V → Option V
  or_else none o = o
  or_else (some v) o = some v

  pub get-append : (j : ℕ) (m n : BTreeMap V) → get j (append m n) ≡ or_else (get j n) (get j m)
  get-append j m [] = refl
  get-append j m ((i, w) ∷ n) = ground (arith, get-append j m n, get-insert j i w (append m n))

abbrev pub BTreeSet : Type 0
BTreeSet = List ℕ

abbrev pub contains : ℕ → BTreeSet → Bool
contains k [] = false
contains k (j ∷ s) = (k == j) || contains k s

abbrev pub add : ℕ → BTreeSet → BTreeSet
add k [] = k ∷ []
add k (j ∷ s) = if ltb k j then k ∷ j ∷ s else if k == j then j ∷ s else j ∷ add k s

abbrev pub remove : ℕ → BTreeSet → BTreeSet
remove k [] = []
remove k (j ∷ s) = let rest = remove k s in if k == j then rest else j ∷ rest

abbrev pub below : ℕ → BTreeSet → BTreeSet
below key [] = []
below key (j ∷ s) = let rest = below key s in if ltb j key then j ∷ rest else rest

abbrev pub from : ℕ → BTreeSet → BTreeSet
from key [] = []
from key (j ∷ s) = let rest = from key s in if ltb j key then rest else j ∷ rest

abbrev pub union : BTreeSet → BTreeSet → BTreeSet
union s [] = s
union s (j ∷ r) = add j (union s r)

pub contains-add : (j k : ℕ) (s : BTreeSet) → contains j (add k s) ≡ ((j == k) || contains j s)
contains-add j k [] = refl
contains-add j k (i ∷ s) = ground (arith, contains-add j k s)

pub contains-remove :
    (j k : ℕ) (s : BTreeSet) → contains j (remove k s) ≡ (if j == k then false else contains j s)
contains-remove j k [] = ground arith
contains-remove j k (i ∷ s) = ground (arith, contains-remove j k s)
