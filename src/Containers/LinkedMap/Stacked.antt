-- ===== src/Containers/LinkedMap/Stacked.antt =====
-- A linked map whose keys are numbered as they came in: the head of the enumeration is the last one.
use btc_parachain.Prelude.{ℕ, suc, ◌≤◌, ◌≡◌, refl, none, some, [], ◌∷◌, length, arith}
use btc_parachain.Containers.LinkedMap.{LinkedMap, lookup, insert, overwrite, remove, swap, head}
use btc_parachain.Containers.LinkedMap.Listing.{Distinct, swap_present, length-overwrite}

-- Each key is the number of the entries behind it.
abbrev pub Stacked : LinkedMap → Type 0
Stacked [] = Unit
Stacked ((k, v) ∷ m) = (k ≡ length m) × Stacked m

Stacked-overwrite : (k v : ℕ) (m : LinkedMap) → Stacked m → Stacked (overwrite k v m)
Stacked-overwrite k v [] st = st
Stacked-overwrite k v ((i, w) ∷ m) st =
    ground (arith, Stacked-overwrite k v m st.1, length-overwrite k v m)

pub Stacked-insert_new :
    (v : ℕ) (m : LinkedMap)
    → lookup (length m) m ≡ none
    → Stacked m
    → Stacked (insert (length m) v m)
unfolding insert
Stacked-insert_new v m e st = rw (e, insert) (refl, st)

pub Stacked-swap :
    (k₁ k₂ v₁ v₂ : ℕ) (m : LinkedMap)
    → lookup k₁ m ≡ some v₁
    → lookup k₂ m ≡ some v₂
    → Stacked m
    → Stacked (swap k₁ k₂ m)
Stacked-swap k₁ k₂ v₁ v₂ m e₁ e₂ st =
    rw (swap_present k₁ k₂ v₁ v₂ m e₁ e₂)
      (Stacked-overwrite k₁ v₂ (overwrite k₂ v₁ m) (Stacked-overwrite k₂ v₁ m st))

lookup-Stacked : (k : ℕ) (m : LinkedMap) → Stacked m → length m ≤ k → lookup k m ≡ none
lookup-Stacked k [] st le = refl
lookup-Stacked k ((i, w) ∷ m) st le = ground (arith, lookup-Stacked k m st.1)

remove_missing : (k : ℕ) (m : LinkedMap) → lookup k m ≡ none → remove k m ≡ m
remove_missing k [] e = refl
remove_missing k ((i, w) ∷ m) e = ground (arith, remove_missing k m)

pub Stacked-Distinct : (m : LinkedMap) → Stacked m → Distinct m
Stacked-Distinct [] st = tt
Stacked-Distinct ((k, v) ∷ m) st =
    (lookup-Stacked k m st.1 (omega (arith, st.0)), Stacked-Distinct m st.1)

pub head-Stacked : (n : ℕ) (m : LinkedMap) → Stacked m → length m ≡ suc n → head m ≡ some n
head-Stacked n [] st e = absurd (omega (arith, e))
head-Stacked n ((k, v) ∷ m) st e = ground (arith, st.0)

-- Without its head it is stacked again.
pub remove-Stacked :
    (n : ℕ) (m : LinkedMap)
    → Stacked m
    → length m ≡ suc n
    → Stacked (remove n m) × (length (remove n m) ≡ n)
remove-Stacked n [] st e = absurd (omega (arith, e))
remove-Stacked n ((k, v) ∷ m) st e =
    let last : n ≡ length m = omega (arith, e) in
    let rest : remove n ((k, v) ∷ m) ≡ m =
      ground (arith, st.0, remove_missing n m (lookup-Stacked n m st.1 (omega (arith, last)))) in
    rw rest (st.1, omega (arith, last))
