-- ===== src/Relay/Order/Lists.antt =====
-- Which chains a list of chain ids has, when crates/btc-relay/src/lib.rs puts one in, exchanges two or
-- takes one away.
use btc_parachain.Prelude.{
  ℕ, zero, suc, ◌-◌, ◌<◌, ◌≡◌, ◌≢◌, refl, ap, ◌∙◌, some, List, [], ◌∷◌, length, get_elem?, ltb,
  ◌==◌, if◌then◌else◌, arith, inl, inr, Bool-cases,
}
use btc_parachain.Containers.LinkedMap.{LinkedMap, swap, lookup-swap}
use btc_parachain.Containers.LinkedMap.Listing.{Holds, Distinct-swap, length-swap}
use btc_parachain.Relay.Order.Placing.{slot, place, place_fork, get_elem?-place, length-place}
use btc_parachain.Relay.Order.Vacate.{
  vacate, get_elem?-vacate, replace, get_elem?-replace, length-replace, get_elem?-last,
}

-- Some position of the list has the id.
abbrev pub Lists : List ℕ → ℕ → Type 0
Lists ids id = (k : ℕ) × (get_elem? ids k ≡ some id)

pub position_below : (ids : List ℕ) (k v : ℕ) → get_elem? ids k ≡ some v → k < length ids
position_below [] k v e = absurd (ground arith)
position_below (x ∷ xs) zero v e = omega arith
position_below (x ∷ xs) (suc k) v e = omega (arith, position_below xs k v e)

module _ (heights : ℕ → ℕ) (height id : ℕ) where
  Lists-place : (xs : List ℕ) (j : ℕ) → Lists xs j → Lists (place heights height id xs) j
  Lists-place xs j (k, e) = elim (Bool-cases (ltb k (slot heights height xs))) [
    | inl before ↦ (k, ground (arith, get_elem?-place heights height id xs k))
    | inr behind ↦
        let back : suc k - 1 ≡ k = omega arith in
        (
          suc k,
          ground (arith, get_elem?-place heights height id xs (suc k), ap (get_elem? xs) back),
        )
  ]

  Lists-place_new : (xs : List ℕ) → Lists (place heights height id xs) id
  Lists-place_new xs = (
    slot heights height xs,
    ground (arith, get_elem?-place heights height id xs (slot heights height xs)),
  )

  -- The listed chains stay listed, and the new one is.
  pub Lists-place_fork :
      (ids : List ℕ) (j : ℕ) → Lists ids j → Lists (place_fork heights height id ids) j
  Lists-place_fork [] j (k, e) = absurd (ground arith)
  Lists-place_fork (main ∷ forks) j (zero, e) = (0, e)
  Lists-place_fork (main ∷ forks) j (suc k, e) =
      let (i, e') = Lists-place forks j (k, e) in (suc i, e')

  pub Lists-place_fork_new : (ids : List ℕ) → Lists (place_fork heights height id ids) id
  Lists-place_fork_new [] = (0, refl)
  Lists-place_fork_new (main ∷ forks) = let (i, e) = Lists-place_new forks in (suc i, e)

  pub first-place_fork :
      (ids : List ℕ) (main : ℕ)
      → get_elem? ids 0 ≡ some main
      → get_elem? (place_fork heights height id ids) 0 ≡ some main
  first-place_fork [] main e = absurd (ground arith)
  first-place_fork (x ∷ xs) main e = e

  pub length-place_fork :
      (ids : List ℕ) → length (place_fork heights height id ids) ≡ suc (length ids)
  length-place_fork [] = refl
  length-place_fork (x ∷ xs) = ap suc (length-place heights height id xs)

module _ (ids : List ℕ) (p gone : ℕ) (at : get_elem? ids p ≡ some gone) where
  -- All chains but the one that goes stay listed.
  pub Lists-vacate : (j : ℕ) → j ≢ gone → Lists ids j → Lists (vacate p ids) j
  Lists-vacate j other (k, e) =
      let lt = position_below ids p gone at in
      let below = position_below ids k j e in
      elim (Bool-cases (ltb (suc k) (length ids))) [
        | inl inside ↦ (k, ground (arith, get_elem?-vacate p ids lt k))
        | inr at_end ↦
            (p, ground (arith, get_elem?-vacate p ids lt p, get_elem?-last ids k (ground arith)))
      ]

  pub first-vacate :
      (main : ℕ)
      → main ≢ gone
      → get_elem? ids 0 ≡ some main
      → get_elem? (vacate p ids) 0 ≡ some main
  first-vacate main other e =
      let lt = position_below ids p gone at in ground (arith, get_elem?-vacate p ids lt 0, lt)

-- Two positions exchange their chains.
module _ (p q v w : ℕ) (ids : List ℕ) (at_p : get_elem? ids p ≡ some v)
    (at_q : get_elem? ids q ≡ some w) where
  abbrev pub exchange : List ℕ
  exchange = replace p w (replace q v ids)

  pub get_elem?-exchange :
      (k : ℕ)
      → get_elem? exchange k
        ≡ (if k == p then some w else if k == q then some v else get_elem? ids k)
  get_elem?-exchange k = ground (
    arith,
    get_elem?-replace p w (replace q v ids) k,
    get_elem?-replace q v ids k,
    length-replace q v ids,
    position_below ids p v at_p,
    position_below ids q w at_q,
  )

  pub length-exchange : length exchange ≡ length ids
  length-exchange = length-replace p w (replace q v ids) ∙ length-replace q v ids

  pub Lists-exchange : (j : ℕ) → Lists ids j → Lists exchange j
  Lists-exchange j (k, e) = elim (Bool-cases (k == p)) [
    | inl first ↦ (q, ground (arith, get_elem?-exchange q))
    | inr away ↦ elim (Bool-cases (k == q)) [
      | inl second ↦ (p, ground (arith, get_elem?-exchange p))
      | inr other ↦ (k, ground (arith, get_elem?-exchange k))
    ]
  ]

  pub Holds-exchange : (m : LinkedMap) → Holds m ids → Holds (swap p q m) exchange
  Holds-exchange m h =
      let e₁ = h.entries p ∙ at_p in
      let e₂ = h.entries q ∙ at_q in
      record {
        distinct = Distinct-swap p q v w m e₁ e₂ h.distinct;
        size = omega (arith, length-swap p q v w m e₁ e₂, h.size, length-exchange);
        entries =
            λ k. ground (arith, lookup-swap k p q m, get_elem?-exchange k, h.entries k, e₁, e₂);
      }
