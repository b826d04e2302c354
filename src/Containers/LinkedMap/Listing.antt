-- ===== src/Containers/LinkedMap/Listing.antt =====
-- A linked map whose keys are the positions of a list.
use btc_parachain.Prelude.{ℕ, suc, ◌≡◌, refl, none, some, List, [], ◌∷◌, length, get_elem?, arith}
use btc_parachain.Containers.LinkedMap.{LinkedMap, lookup, insert, overwrite, swap}

-- No key twice.
abbrev pub Distinct : LinkedMap → Type 0
Distinct [] = Unit
Distinct ((k, v) ∷ m) = (lookup k m ≡ none) × Distinct m

-- The map holds the list: its keys are the positions, each once.
pub record Holds (m : LinkedMap) (ids : List ℕ) : Type 0 where
  pub distinct : Distinct m
  pub size : length m ≡ length ids
  pub entries : (k : ℕ) → lookup k m ≡ get_elem? ids k

lookup-overwrite-none :
    (j k v : ℕ) (m : LinkedMap) → lookup j m ≡ none → lookup j (overwrite k v m) ≡ none
lookup-overwrite-none j k v [] h = refl
lookup-overwrite-none j k v ((i, w) ∷ m) h = ground (arith, lookup-overwrite-none j k v m)

Distinct-overwrite : (k v : ℕ) (m : LinkedMap) → Distinct m → Distinct (overwrite k v m)
Distinct-overwrite k v [] d = d
Distinct-overwrite k v ((i, w) ∷ m) d =
    ground (arith, Distinct-overwrite k v m d.1, lookup-overwrite-none i k v m)

pub length-overwrite : (k v : ℕ) (m : LinkedMap) → length (overwrite k v m) ≡ length m
length-overwrite k v [] = refl
length-overwrite k v ((i, w) ∷ m) = ground (arith, length-overwrite k v m)

pub Distinct-insert_new :
    (k v : ℕ) (m : LinkedMap) → lookup k m ≡ none → Distinct m → Distinct (insert k v m)
unfolding insert
Distinct-insert_new k v m e d = rw (e, insert) (e, d)

pub length-insert_new :
    (k v : ℕ) (m : LinkedMap) → lookup k m ≡ none → length (insert k v m) ≡ suc (length m)
unfolding insert
length-insert_new k v m e = rw (e, insert)

module _ (k₁ k₂ v₁ v₂ : ℕ) (m : LinkedMap) (e₁ : lookup k₁ m ≡ some v₁)
    (e₂ : lookup k₂ m ≡ some v₂) where
  pub swap_present : swap k₁ k₂ m ≡ overwrite k₁ v₂ (overwrite k₂ v₁ m)
  unfolding swap
  swap_present = rw (e₁, e₂, swap)

  pub Distinct-swap : Distinct m → Distinct (swap k₁ k₂ m)
  Distinct-swap d =
      rw swap_present (Distinct-overwrite k₁ v₂ (overwrite k₂ v₁ m) (Distinct-overwrite k₂ v₁ m d))

  pub length-swap : length (swap k₁ k₂ m) ≡ length m
  length-swap =
      rw swap_present
        (omega (arith, length-overwrite k₁ v₂ (overwrite k₂ v₁ m), length-overwrite k₂ v₁ m))
