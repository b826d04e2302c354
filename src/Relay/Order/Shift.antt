-- ===== src/Relay/Order/Shift.antt =====
-- The loop of swaps at the end of `insert_sorted` of crates/btc-relay/src/lib.rs.
use btc_parachain.Prelude.{
  ℕ, zero, suc, ◌+◌, ◌-◌, ◌^◌, ◌<◌, ◌≡◌, refl, ap, ◌∙◌, ◌&&◌, some, length, leb, ltb, ◌==◌,
  if◌then◌else◌, arith, inl, inr, Bool-cases,
}
use btc_parachain.Prelude.Words.{sub32}
use btc_parachain.Containers.LinkedMap.{LinkedMap, lookup, swap, lookup-swap}
use btc_parachain.Containers.LinkedMap.Listing.{Distinct, Distinct-swap, length-swap}
use btc_parachain.Relay.Storage.{Storage, swap_chain}
use btc_parachain.Relay.Order.{shift_loop}
use btc_parachain.Relay.Order.Keeps.{shift_loop_step}

-- Every position below `n` is taken.
abbrev pub Full : ℕ → LinkedMap → Type 0
Full n m = (k : ℕ) → k < n → (v : ℕ) × (lookup k m ≡ some v)

module _ (p : ℕ) where
  -- The loop takes the entry at the end of the range to its start, and moves the others up by one.
  pub lookup-shift_loop :
      (rounds : ℕ) (s : Storage)
      → p + rounds + 1 < 2 ^ 32
      → (k : ℕ)
      → lookup k (shift_loop rounds (p + 1) p s).chains ≡ (
          if k == p
          then lookup (p + rounds) s.chains
          else if ltb p k && leb k (p + rounds)
          then lookup (k - 1) s.chains
          else lookup k s.chains)
  lookup-shift_loop zero s small k =
      let here : p + 0 ≡ p = omega arith in
      unfold shift_loop in ground (arith, ap (λ t. lookup t s.chains) here)
  lookup-shift_loop (suc rounds) s small k =
      let top : p + 1 + rounds ≡ p + suc rounds = omega arith in
      let below : sub32 (p + suc rounds) 1 ≡ p + rounds = omega arith in
      let swapped = swap_chain (p + suc rounds) (p + rounds) s in
      rw (shift_loop_step rounds (p + 1) p s (ground arith), top, below)
        (lookup-shift_loop rounds swapped (omega arith) k
          ∙ ground (
            arith,
            lookup-swap (p + rounds) (p + suc rounds) (p + rounds) s.chains,
            lookup-swap (k - 1) (p + suc rounds) (p + rounds) s.chains,
            lookup-swap k (p + suc rounds) (p + rounds) s.chains,
          ))

  -- The loop keeps what each swap of two taken positions keeps.
  pub shift_loop_invariant :
      (P : LinkedMap → Type 0)
      → ((k₁ k₂ v₁ v₂ : ℕ) (m : LinkedMap)
          → lookup k₁ m ≡ some v₁
          → lookup k₂ m ≡ some v₂
          → P m
          → P (swap k₁ k₂ m))
      → (rounds : ℕ) (s : Storage) → p + rounds + 1 < 2 ^ 32
      → Full (p + rounds + 1) s.chains
      → P s.chains
      → P (shift_loop rounds (p + 1) p s).chains
  shift_loop_invariant P step zero s small full d = unfold shift_loop in d
  shift_loop_invariant P step (suc rounds) s small full d =
      let top : p + 1 + rounds ≡ p + suc rounds = omega arith in
      let below : sub32 (p + suc rounds) 1 ≡ p + rounds = omega arith in
      let (v₁, e₁) = full (p + suc rounds) (omega arith) in
      let (v₂, e₂) = full (p + rounds) (omega arith) in
      let swapped = swap_chain (p + suc rounds) (p + rounds) s in
      rw (shift_loop_step rounds (p + 1) p s (ground arith), top, below)
        (shift_loop_invariant P step rounds swapped (omega arith)
          (λ k lt.
            let (v, e) = full k (omega arith) in
            elim (Bool-cases (k == p + rounds)) [
              | inl at ↦ (v₁, ground (arith, lookup-swap k (p + suc rounds) (p + rounds) s.chains))
              | inr away ↦ (v, ground (arith, lookup-swap k (p + suc rounds) (p + rounds) s.chains))
            ])
          (step (p + suc rounds) (p + rounds) v₁ v₂ s.chains e₁ e₂ d))

  -- The loop keeps the keys.
  pub shift_loop_size :
      (rounds : ℕ) (s : Storage)
      → p + rounds + 1 < 2 ^ 32
      → Full (p + rounds + 1) s.chains
      → Distinct s.chains
      → Distinct (shift_loop rounds (p + 1) p s).chains
        × (length (shift_loop rounds (p + 1) p s).chains ≡ length s.chains)
  shift_loop_size rounds s small full d =
      shift_loop_invariant (λ m. Distinct m × (length m ≡ length s.chains))
        (λ k₁ k₂ v₁ v₂ m e₁ e₂ (d', e).
          (Distinct-swap k₁ k₂ v₁ v₂ m e₁ e₂ d', length-swap k₁ k₂ v₁ v₂ m e₁ e₂ ∙ e))
        rounds s small full (d, refl)
