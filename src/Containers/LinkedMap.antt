-- ===== src/Containers/LinkedMap.antt =====
-- Substrate's `linked_map u32 => u32`, as its entries in the order in which `enumerate` lists them:
-- a new key is linked in at the head, an old key keeps its place, and a missing key reads as 0.
pub mod Listing
pub mod Stacked
use btc_parachain.Prelude.{
  ℕ, ◌≡◌, ◌≢◌, refl, Bool, true, false, Option, none, some, List, [], ◌∷◌, arith, inl, inr,
  Option-cases, ◌==◌, if◌then◌else◌,
}

abbrev pub LinkedMap : Type 0
LinkedMap = List (ℕ × ℕ)

abbrev pub lookup : ℕ → LinkedMap → Option ℕ
lookup k [] = none
lookup k ((j, v) ∷ m) = if k == j then some v else lookup k m

abbrev pub or_zero : Option ℕ → ℕ
or_zero none = 0
or_zero (some v) = v

abbrev pub get : ℕ → LinkedMap → ℕ
get k m = or_zero (lookup k m)

-- A write to a key that is there.
abbrev pub overwrite : ℕ → ℕ → LinkedMap → LinkedMap
overwrite k v [] = []
overwrite k v ((j, w) ∷ m) = if k == j then (j, v) ∷ m else (j, w) ∷ overwrite k v m

unfoldable pub insert : ℕ → ℕ → LinkedMap → LinkedMap
insert k v m = elim (lookup k m) [ none ↦ (k, v) ∷ m | some _ ↦ overwrite k v m ]

abbrev pub remove : ℕ → LinkedMap → LinkedMap
remove k [] = []
remove k ((j, w) ∷ m) = let rest = remove k m in if k == j then rest else (j, w) ∷ rest

-- Where one key is missing, the entry of the other moves to it.
abbrev pub swap_values : ℕ → ℕ → LinkedMap → Option ℕ → Option ℕ → LinkedMap
swap_values k₁ k₂ m (some v₁) (some v₂) = overwrite k₁ v₂ (overwrite k₂ v₁ m)
swap_values k₁ k₂ m (some v₁) none = insert k₂ v₁ (remove k₁ m)
swap_values k₁ k₂ m none (some v₂) = insert k₁ v₂ (remove k₂ m)
swap_values k₁ k₂ m none none = m

unfoldable pub swap : ℕ → ℕ → LinkedMap → LinkedMap
unfolding insert
swap k₁ k₂ m = swap_values k₁ k₂ m (lookup k₁ m) (lookup k₂ m)

abbrev pub head : LinkedMap → Option ℕ
head [] = none
head ((k, v) ∷ m) = some k

lookup-overwrite :
    (j k v : ℕ) (m : LinkedMap)
    → lookup k m ≢ none
    → lookup j (overwrite k v m) ≡ (if j == k then some v else lookup j m)
lookup-overwrite j k v [] h = absurd (h refl)
lookup-overwrite j k v ((i, w) ∷ m) h = ground (arith, lookup-overwrite j k v m)

pub lookup-insert :
    (j k v : ℕ) (m : LinkedMap) → lookup j (insert k v m) ≡ (if j == k then some v else lookup j m)
unfolding insert
lookup-insert j k v m = ground (arith, lookup-overwrite j k v m)

pub lookup-remove :
    (j k : ℕ) (m : LinkedMap) → lookup j (remove k m) ≡ (if j == k then none else lookup j m)
lookup-remove j k [] = ground arith
lookup-remove j k ((i, w) ∷ m) = ground (arith, lookup-remove j k m)

-- A swap exchanges the two values, whether the keys are there or not.
pub lookup-swap :
    (j k₁ k₂ : ℕ) (m : LinkedMap)
    → lookup j (swap k₁ k₂ m)
      ≡ (if j == k₁ then lookup k₂ m else if j == k₂ then lookup k₁ m else lookup j m)
unfolding swap
lookup-swap j k₁ k₂ m = elim (Option-cases (lookup k₁ m)) [
  | inl e₁ ↦ elim (Option-cases (lookup k₂ m)) [
    | inl e₂ ↦ ground arith
    | inr (v₂, e₂) ↦ ground (arith, lookup-insert j k₁ v₂ (remove k₂ m), lookup-remove j k₂ m)
  ]
  | inr (v₁, e₁) ↦ elim (Option-cases (lookup k₂ m)) [
    | inl e₂ ↦ ground (arith, lookup-insert j k₂ v₁ (remove k₁ m), lookup-remove j k₁ m)
    | inr (v₂, e₂) ↦ ground (
      arith,
      lookup-overwrite j k₁ v₂ (overwrite k₂ v₁ m),
      lookup-overwrite k₁ k₂ v₁ m,
      lookup-overwrite j k₂ v₁ m,
    )
  ]
]
