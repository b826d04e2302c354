-- ===== src/Relay/Reorg/Flags.antt =====
-- Which flagged heights `swap_main_blockchain` of crates/btc-relay/src/lib.rs moves to the new fork.
use btc_parachain.Prelude.{
  ℕ, ◌+◌, ◌%◌, ◌^◌, ◌≤◌, ◌<◌, ◌≡◌, refl, true, some, [], ◌∷◌, length, leb, arith, Bool-cases, inl,
  inr,
}
use btc_parachain.Containers.BTree
use btc_parachain.Containers.BTree.{BTreeSet}
use btc_parachain.Relay.Reorg.{first_index_from, split_flags}

-- Every flagged height is at least `n`.
abbrev pub AllFrom : ℕ → BTreeSet → Type 0
AllFrom n [] = Unit
AllFrom n (h ∷ s) = (n ≤ h) × AllFrom n s

AllFrom-below :
    (n i : ℕ) (s : BTreeSet) → i ≤ n → AllFrom n s → (BTree.below i s ≡ []) × (BTree.from i s ≡ s)
AllFrom-below n i [] le all = (refl, refl)
AllFrom-below n i (h ∷ s) le all = ground (arith, AllFrom-below n i s le all.1)

first_index_from_lem :
    (start h i : ℕ) (s : BTreeSet)
    → BTree.contains h s ≡ true
    → start ≤ h
    → (j : ℕ) × (first_index_from start i s ≡ some j) × (j < i + length s)
unfolding first_index_from
first_index_from_lem start h i [] member le = absurd (ground arith)
first_index_from_lem start h i (k ∷ s) member le = elim (Bool-cases (leb start k)) [
  | inl here ↦ (i, ground arith, omega arith)
  | inr later ↦
      let (j, e, lt) = first_index_from_lem start h (i + 1) s (ground arith) le in
      (j, ground arith, omega arith)
]

-- Where at least one block from the start of the fork on is flagged, all flagged heights are at
-- least as large as their number, and that number is below 2 ^ 32, the flags of the whole main
-- chain go to the new fork, those of blocks below its start too.
pub split_flags_moves_all :
    (start_height height : ℕ) (flags : BTreeSet)
    → AllFrom (length flags) flags
    → length flags < 2 ^ 32
    → BTree.contains height flags ≡ true
    → start_height ≤ height
    → split_flags start_height flags ≡ ([], flags)
unfolding split_flags
split_flags_moves_all start height flags all few member le =
    let (i, e, lt) = first_index_from_lem start height 0 flags member le in
    ground (arith, AllFrom-below (length flags) (i % 2 ^ 32) flags)
