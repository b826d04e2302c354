-- ===== src/Relay/Order/Vacate.antt =====
-- The list of the chains without a fork, as `remove_blockchain_from_chain` of
-- crates/btc-relay/src/lib.rs makes it: the last chain moves to the free position.
use btc_parachain.Prelude.{
  ℕ, zero, suc, ◌-◌, ◌<◌, ◌≡◌, refl, ap, ◌∙◌, ◌&&◌, none, some, List, [], ◌∷◌, length, get_elem?,
  ltb, ◌==◌, if◌then◌else◌, arith, inl, inr, Bool-cases,
}
use btc_parachain.Containers.LinkedMap
use btc_parachain.Containers.LinkedMap.{LinkedMap, lookup, lookup-swap, lookup-remove}
use btc_parachain.Containers.LinkedMap.Listing.{Holds, length-swap}
use btc_parachain.Containers.LinkedMap.Stacked.{
  Stacked, Stacked-swap, Stacked-Distinct, head-Stacked, remove-Stacked,
}
use btc_parachain.Relay.Order.Placing.{get_elem?-ge}

abbrev pub last : List ℕ → ℕ
last [] = 0
last (x ∷ []) = x
last (x ∷ y ∷ xs) = last (y ∷ xs)

abbrev pub drop_last : List ℕ → List ℕ
drop_last [] = []
drop_last (x ∷ []) = []
drop_last (x ∷ y ∷ xs) = x ∷ drop_last (y ∷ xs)

abbrev pub replace : ℕ → ℕ → List ℕ → List ℕ
replace p v [] = []
replace zero v (x ∷ xs) = v ∷ xs
replace (suc p) v (x ∷ xs) = x ∷ replace p v xs

abbrev pub vacate : ℕ → List ℕ → List ℕ
vacate p ids = drop_last (replace p (last ids) ids)

pub length-replace : (p v : ℕ) (ids : List ℕ) → length (replace p v ids) ≡ length ids
length-replace p v [] = refl
length-replace zero v (x ∷ xs) = refl
length-replace (suc p) v (x ∷ xs) = ap suc (length-replace p v xs)

length-drop_last : (ids : List ℕ) → length (drop_last ids) ≡ length ids - 1
length-drop_last [] = refl
length-drop_last (x ∷ []) = refl
length-drop_last (x ∷ y ∷ xs) = omega (arith, length-drop_last (y ∷ xs))

pub length-vacate : (p : ℕ) (ids : List ℕ) → length (vacate p ids) ≡ length ids - 1
length-vacate p ids =
    length-drop_last (replace p (last ids) ids) ∙ ap (λ n. n - 1) (length-replace p (last ids) ids)

pub get_elem?-replace :
    (p v : ℕ) (ids : List ℕ) (k : ℕ)
    → get_elem? (replace p v ids) k
      ≡ (if (k == p) && ltb p (length ids) then some v else get_elem? ids k)
get_elem?-replace p v [] k = ground arith
get_elem?-replace zero v (x ∷ xs) zero = ground arith
get_elem?-replace zero v (x ∷ xs) (suc k) = ground arith
get_elem?-replace (suc p) v (x ∷ xs) zero = ground arith
get_elem?-replace (suc p) v (x ∷ xs) (suc k) = ground (arith, get_elem?-replace p v xs k)

get_elem?-drop_last :
    (ids : List ℕ) (k : ℕ)
    → get_elem? (drop_last ids) k ≡ (if ltb (suc k) (length ids) then get_elem? ids k else none)
get_elem?-drop_last [] k = ground arith
get_elem?-drop_last (x ∷ []) k = ground arith
get_elem?-drop_last (x ∷ y ∷ xs) zero = ground arith
get_elem?-drop_last (x ∷ y ∷ xs) (suc k) = ground (arith, get_elem?-drop_last (y ∷ xs) k)

pub get_elem?-last : (ids : List ℕ) (n : ℕ) → length ids ≡ suc n → get_elem? ids n ≡ some (last ids)
get_elem?-last [] n e = absurd (omega (arith, e))
get_elem?-last (x ∷ []) zero e = refl
get_elem?-last (x ∷ []) (suc n) e = absurd (omega (arith, e))
get_elem?-last (x ∷ y ∷ xs) zero e = absurd (omega (arith, e))
get_elem?-last (x ∷ y ∷ xs) (suc n) e = get_elem?-last (y ∷ xs) n (omega (arith, e))

pub get_elem?-vacate :
    (p : ℕ) (ids : List ℕ)
    → p < length ids
    → (k : ℕ)
    → get_elem? (vacate p ids) k ≡ (
        if ltb (suc k) (length ids)
        then if k == p then some (last ids) else get_elem? ids k
        else none)
get_elem?-vacate p ids lt k = ground (
  arith,
  get_elem?-drop_last (replace p (last ids) ids) k,
  length-replace p (last ids) ids,
  get_elem?-replace p (last ids) ids k,
)

module _ (m : LinkedMap) (ids : List ℕ) (h : Holds m ids) (st : Stacked m) (p n v : ℕ)
    (size : length ids ≡ suc n) (at : lookup p m ≡ some v) where
  -- The position is inside the list.
  position-lt : p < length ids
  position-lt = elim (Bool-cases (ltb p (length ids))) [
    | inl in_range ↦ ground arith
    | inr beyond ↦ absurd (ground (arith, h.entries p, get_elem?-ge ids p (ground arith)))
  ]

  last_entry : lookup n m ≡ some (last ids)
  last_entry = h.entries n ∙ get_elem?-last ids n size

  abbrev pub exchanged : LinkedMap
  exchanged = LinkedMap.swap p n m

  exchanged_size : length exchanged ≡ suc n
  exchanged_size = length-swap p n v (last ids) m at last_entry ∙ h.size ∙ size

  exchanged-Stacked : Stacked exchanged
  exchanged-Stacked = Stacked-swap p n v (last ids) m at last_entry st

  pub removed-Stacked : Stacked (LinkedMap.remove n exchanged)
  removed-Stacked = (remove-Stacked n exchanged exchanged-Stacked exchanged_size).0

  pub removed-Holds : Holds (LinkedMap.remove n exchanged) (vacate p ids)
  removed-Holds = record {
    distinct = Stacked-Distinct (LinkedMap.remove n exchanged) removed-Stacked;
    size =
        (remove-Stacked n exchanged exchanged-Stacked exchanged_size).1
        ∙ omega (arith, length-vacate p ids, size);
    entries = λ k. ground (
      arith,
      lookup-remove k n exchanged,
      lookup-swap k p n m,
      last_entry,
      h.entries k,
      get_elem?-vacate p ids position-lt k,
      get_elem?-ge ids k,
      size,
    );
  }

  pub head_index : LinkedMap.head m ≡ some n
  head_index = head-Stacked n m st (h.size ∙ size)
