-- ===== src/Bitcoin/Merkle/Width.antt =====
-- The width and the height of the tree of a proof (`compute_tree_width`, `compute_tree_height` of
-- crates/bitcoin/src/merkle.rs), without the wrap-around.
use native.Mathlib.Nat.{pow-suc}
use btc_parachain.Prelude.{
  ℕ, zero, suc, ◌+◌, ◌-◌, ◌*◌, ◌/◌, ◌%◌, ◌^◌, ◌≤◌, ◌<◌, ◌≡◌, arith, ltb, inl, inr, true, false,
  Bool-cases, ltb→lt,
}
use native.Mathlib.Decide.{dec_lt}
use btc_parachain.Prelude.Words.{add32}
use btc_parachain.Bitcoin.Merkle.{
  MerkleProof, compute_tree_width, compute_tree_height, tree_height_loop, max_transactions_in_proof,
}

pub pow_pos : (h : ℕ) → 0 < 2 ^ h
pow_pos zero = omega arith
pow_pos (suc h) = rw pow-suc (omega (arith, pow_pos h))

pub pow_mono : (h k : ℕ) → h ≤ k → 2 ^ h ≤ 2 ^ k
pow_mono zero k h = pow_pos k
pow_mono (suc h) zero l = absurd (omega arith)
pow_mono (suc h) (suc k) l =
    rw (pow-suc 2 h, pow-suc 2 k) (omega (arith, pow_mono h k (omega arith)))

-- A node is inside the level exactly where its first leaf is inside the block.
pub lt-div_iff :
    (pos c w : ℕ)
    → 0 < w
    → (pos < (c + w - 1) / w → pos * w < c) × (pos * w < c → pos < (c + w - 1) / w)
lt-div_iff pos c w h = (grind arith, grind arith)

module _ (p : MerkleProof) (small : p.transactions_count ≤ max_transactions_in_proof) where
  pub compute_tree_width_lem :
      (h : ℕ) → h ≤ 15 → compute_tree_width p h ≡ (p.transactions_count + 2 ^ h - 1) / 2 ^ h
  unfolding compute_tree_width
  compute_tree_width_lem h le =
      let e : h % 32 ≡ h = omega arith in
      let top : ((p.transactions_count + 2 ^ h) % 2 ^ 32 + 2 ^ 32 - 1) % 2 ^ 32
          ≡ p.transactions_count + 2 ^ h - 1 =
        omega (arith, pow_mono h 15 le, pow_pos h) in
      rw (e, top)

  -- A level has at most one node exactly where its nodes span the whole block.
  width-le-one_iff :
      (h : ℕ)
      → h ≤ 15
      → (compute_tree_width p h ≤ 1 → p.transactions_count ≤ 2 ^ h)
        × (1 < compute_tree_width p h → 2 ^ h < p.transactions_count)
  width-le-one_iff h le = rw compute_tree_width_lem (
    λ one. grind (arith, (lt-div_iff 1 p.transactions_count (2 ^ h) (pow_pos h)).1),
    λ more. grind (arith, (lt-div_iff 1 p.transactions_count (2 ^ h) (pow_pos h)).0 more),
  )

  below_top : (h : ℕ) → h ≤ 15 → 1 < compute_tree_width p h → h + 1 ≤ 15
  below_top h le wide = elim (dec_lt h 15) [
    | yes low ↦ omega arith
    | no top ↦
        let e : h ≡ 15 = omega arith in
        let spans : 2 ^ h < p.transactions_count = (width-le-one_iff h le).1 wide in
        absurd (omega (arith, (rw e at spans)))
  ]

  loop_goes_on :
      (fuel h : ℕ)
      → ltb 1 (compute_tree_width p h) ≡ true
      → add32 h 1 ≡ h + 1
      → tree_height_loop p (suc fuel) h ≡ tree_height_loop p fuel (h + 1)
  unfolding tree_height_loop
  loop_goes_on fuel h wide e = rw (wide, tree_height_loop) (rw e)

  loop_stops :
      (fuel h : ℕ) → ltb 1 (compute_tree_width p h) ≡ false → tree_height_loop p (suc fuel) h ≡ h
  unfolding tree_height_loop
  loop_stops fuel h narrow = rw (narrow, tree_height_loop)

  tree_height_loop_least :
      (fuel h : ℕ)
      → h ≤ 15
      → 15 < h + fuel
      → (tree_height_loop p fuel h ≤ 15)
        × (compute_tree_width p (tree_height_loop p fuel h) ≤ 1)
        × ((k : ℕ) → h ≤ k → k < tree_height_loop p fuel h → 1 < compute_tree_width p k)
  tree_height_loop_least zero h le more = absurd (omega arith)
  tree_height_loop_least (suc fuel) h le more = elim (Bool-cases (ltb 1 (compute_tree_width p h))) [
    | inl wide ↦
        let low : h + 1 ≤ 15 = below_top h le (ltb→lt _ _ wide) in
        let next : add32 h 1 ≡ h + 1 = omega arith in
        let ih = tree_height_loop_least fuel (h + 1) low (omega arith) in
        rw (loop_goes_on fuel h wide next) (
          ih.0,
          ih.1,
          λ k from upto. elim (dec_lt h k) [
            | yes later ↦ ih.2 k (omega arith) upto
            | no same ↦ let here : h ≡ k = omega arith in rw (← here) (ltb→lt _ _ wide)
          ],
        )
    | inr narrow ↦
        rw (loop_stops fuel h narrow) (le, ground arith, λ k from upto. absurd (omega arith))
  ]

  -- For a proof with at most 16666 transactions, the height of the tree is the least at which the
  -- block fits, and at most 15: the loop ends with it within its 32 rounds.
  pub compute_tree_height_least :
      (p.transactions_count ≤ 2 ^ compute_tree_height p)
      × (compute_tree_height p ≤ 15)
      × ((k : ℕ) → k < compute_tree_height p → 2 ^ k < p.transactions_count)
  unfolding compute_tree_height
  compute_tree_height_least =
      let least = tree_height_loop_least 32 0 (omega arith) (omega arith) in
      (
        (width-le-one_iff _ least.0).0 least.1,
        least.0,
        λ k upto. (width-le-one_iff k (omega (arith, least.0))).1 (least.2 k (omega arith) upto),
      )
