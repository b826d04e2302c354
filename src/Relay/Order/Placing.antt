-- ===== src/Relay/Order/Placing.antt =====
-- The list of the chains with a new fork put in its place, which `insert_sorted` of
-- crates/btc-relay/src/lib.rs is to make.
use btc_parachain.Prelude.{
  ℕ, zero, suc, ◌-◌, ◌≤◌, ◌≡◌, refl, ap, none, some, List, [], ◌∷◌, length, get_elem?, leb, ltb,
  ◌==◌, if◌then◌else◌, arith, inl, inr, Bool-cases,
}

module _ (heights : ℕ → ℕ) (height : ℕ) where
  -- The index of the first chain that is not higher.
  abbrev pub slot : List ℕ → ℕ
  slot [] = 0
  slot (x ∷ xs) = if leb (heights x) height then 0 else suc (slot xs)

  pub slot-le : (xs : List ℕ) → slot xs ≤ length xs
  slot-le [] = omega arith
  slot-le (x ∷ xs) = ground (arith, slot-le xs)

module _ (heights : ℕ → ℕ) (height id : ℕ) where
  -- The new chain goes in front of the first that is not higher.
  abbrev pub place : List ℕ → List ℕ
  place [] = id ∷ []
  place (x ∷ xs) = if leb (heights x) height then id ∷ x ∷ xs else x ∷ place xs

  -- The first chain keeps its place.
  abbrev pub place_fork : List ℕ → List ℕ
  place_fork [] = id ∷ []
  place_fork (main ∷ forks) = main ∷ place forks

  pub length-place : (xs : List ℕ) → length (place xs) ≡ suc (length xs)
  length-place [] = refl
  length-place (x ∷ xs) = ground (arith, length-place xs)

  pub get_elem?-place :
      (xs : List ℕ) (k : ℕ)
      → get_elem? (place xs) k ≡ (
          if ltb k (slot heights height xs)
          then get_elem? xs k
          else if k == slot heights height xs
          then some id
          else get_elem? xs (k - 1))
  get_elem?-place [] zero = refl
  get_elem?-place [] (suc k) = ground arith
  get_elem?-place (x ∷ xs) zero = ground arith
  get_elem?-place (x ∷ xs) (suc zero) = ground (arith, get_elem?-place xs 0)
  get_elem?-place (x ∷ xs) (suc (suc k)) =
      let one : suc (suc k) - 1 ≡ suc k = omega arith in
      let two : suc k - 1 ≡ k = omega arith in
      ground (arith, get_elem?-place xs (suc k), ap (get_elem? (x ∷ xs)) one, ap (get_elem? xs) two)

-- The heights along a list do not rise.
abbrev pub Descends : (ℕ → ℕ) → ℕ → List ℕ → Type 0
Descends heights top [] = Unit
Descends heights top (x ∷ xs) = (heights x ≤ top) × Descends heights (heights x) xs

-- A chain that is placed among forks in order leaves them in order.
pub place-Descends :
    (heights : ℕ → ℕ) (height id top : ℕ) (xs : List ℕ)
    → heights id ≡ height
    → height ≤ top
    → Descends heights top xs
    → Descends heights top (place heights height id xs)
place-Descends heights height id top [] e le d = (omega arith, tt)
place-Descends heights height id top (x ∷ xs) e le d = elim (Bool-cases (leb (heights x) height)) [
  | inl here ↦ rw here (omega arith, (ground arith, d.1))
  | inr later ↦ rw later (d.0, place-Descends heights height id (heights x) xs e (ground arith) d.1)
]

pub get_elem?-ge : (xs : List ℕ) (k : ℕ) → length xs ≤ k → get_elem? xs k ≡ none
get_elem?-ge [] k h = refl
get_elem?-ge (x ∷ xs) zero h = elim h [ ]
get_elem?-ge (x ∷ xs) (suc k) h = get_elem?-ge xs k (omega arith)
