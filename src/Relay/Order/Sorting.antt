-- ===== src/Relay/Order/Sorting.antt =====
-- Sorting the entries of `Chains` by their positions lists the chains in order.
use btc_parachain.Prelude.{
  ℕ, suc, ◌+◌, ◌-◌, ◌≤◌, ◌<◌, ◌≡◌, refl, ap, sym, ◌∙◌, none, some, List, [], ◌∷◌, get_elem?, leb,
  ◌==◌, if◌then◌else◌, arith, inl, inr, Bool-cases,
}
use btc_parachain.Containers.LinkedMap.{LinkedMap, lookup}
use btc_parachain.Containers.LinkedMap.Listing.{Distinct, Holds}
use btc_parachain.Relay.Order.{insert_by_key, sort_by_key}

-- All keys are at least `n`, and ascend.
abbrev Ascends : ℕ → LinkedMap → Type 0
Ascends n [] = Unit
Ascends n ((k, v) ∷ m) = (n ≤ k) × Ascends (suc k) m

Ascends-le : (n n' : ℕ) (m : LinkedMap) → n ≤ n' → Ascends n' m → Ascends n m
Ascends-le n n' [] le a = a
Ascends-le n n' ((k, v) ∷ m) le a = (omega arith, a.1)

lookup-Ascends : (n k : ℕ) (m : LinkedMap) → k < n → Ascends n m → lookup k m ≡ none
lookup-Ascends n k [] lt a = refl
lookup-Ascends n k ((j, v) ∷ m) lt a = ground (arith, lookup-Ascends (suc j) k m (omega arith) a.1)

lookup-insert_by_key :
    (j k v : ℕ) (m : LinkedMap)
    → lookup k m ≡ none
    → lookup j (insert_by_key (k, v) m) ≡ (if j == k then some v else lookup j m)
unfolding insert_by_key
lookup-insert_by_key j k v [] e = refl
lookup-insert_by_key j k v ((i, w) ∷ m) e = ground (arith, lookup-insert_by_key j k v m)

Ascends-insert_by_key :
    (n k v : ℕ) (m : LinkedMap)
    → lookup k m ≡ none
    → n ≤ k
    → Ascends n m
    → Ascends n (insert_by_key (k, v) m)
unfolding insert_by_key
Ascends-insert_by_key n k v [] e le a = (le, tt)
Ascends-insert_by_key n k v ((i, w) ∷ m) e le a = elim (Bool-cases (leb k i)) [
  | inl before ↦ rw before (le, (ground arith, a.1))
  | inr after ↦
      rw after (a.0, Ascends-insert_by_key (suc i) k v m (ground arith) (ground arith) a.1)
]

lookup-sort_by_key : (j : ℕ) (m : LinkedMap) → Distinct m → lookup j (sort_by_key m) ≡ lookup j m
unfolding sort_by_key
lookup-sort_by_key j [] d = refl
lookup-sort_by_key j ((k, v) ∷ m) d = ground (
  arith,
  lookup-insert_by_key j k v (sort_by_key m),
  lookup-sort_by_key k m d.1,
  lookup-sort_by_key j m d.1,
)

Ascends-sort_by_key : (m : LinkedMap) → Distinct m → Ascends 0 (sort_by_key m)
unfolding sort_by_key
Ascends-sort_by_key [] d = tt
Ascends-sort_by_key ((k, v) ∷ m) d =
    Ascends-insert_by_key 0 k v (sort_by_key m) (lookup-sort_by_key k m d.1 ∙ d.0) (omega arith)
      (Ascends-sort_by_key m d.1)

-- A list with its positions, from `n` on.
abbrev pub numbered : ℕ → List ℕ → LinkedMap
numbered n [] = []
numbered n (x ∷ xs) = (n, x) ∷ numbered (suc n) xs

-- Entries in ascending order are determined by their lookups.
Ascends-numbered :
    (n : ℕ) (m : LinkedMap) (ids : List ℕ)
    → Ascends n m
    → ((k : ℕ) → lookup (n + k) m ≡ get_elem? ids k)
    → m ≡ numbered n ids
Ascends-numbered n [] [] a h = refl
Ascends-numbered n [] (x ∷ ids) a h = absurd (ground (arith, h 0))
Ascends-numbered n ((k, v) ∷ m) [] a h =
    let at_k : n + (k - n) ≡ k = omega (arith, a.0) in
    let found : lookup k ((k, v) ∷ m) ≡ none =
      ap (λ t. lookup t ((k, v) ∷ m)) (sym at_k) ∙ h (k - n) in
    absurd (ground (arith, found))
Ascends-numbered n ((k, v) ∷ m) (x ∷ ids) a h =
    let zero_off : n + 0 ≡ n = omega arith in
    let first : lookup n ((k, v) ∷ m) ≡ some x =
      ap (λ t. lookup t ((k, v) ∷ m)) (sym zero_off) ∙ h 0 in
    let later = lookup-Ascends (suc k) n m (omega (arith, a.0)) a.1 in
    let same_key : k ≡ n = ground (arith, first, later) in
    let same_value : v ≡ x = ground (arith, first, later) in
    let rest : m ≡ numbered (suc n) ids = Ascends-numbered (suc n) m ids (rw same_key at a.1) λ j.
      let shifted : n + suc j ≡ suc n + j = omega arith in
      let found : lookup (suc n + j) ((k, v) ∷ m) ≡ get_elem? ids j =
        ap (λ t. lookup t ((k, v) ∷ m)) (sym shifted) ∙ h (suc j) in
      ground (arith, found, same_key) in
    rw (same_key, same_value, rest)

-- The sorted entries of a map that holds a list are the list with its positions.
pub sort_by_key-numbered :
    (m : LinkedMap) (ids : List ℕ) → Holds m ids → sort_by_key m ≡ numbered 0 ids
sort_by_key-numbered m ids h =
    Ascends-numbered 0 (sort_by_key m) ids (Ascends-sort_by_key m h.distinct) λ k.
      let plain : 0 + k ≡ k = omega arith in
      rw plain (lookup-sort_by_key k m h.distinct ∙ h.entries k)
