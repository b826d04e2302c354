-- ===== src/Relay/Order/Keeps.antt =====
-- `insert_sorted` of crates/btc-relay/src/lib.rs writes to `Chains` alone.
use btc_parachain.Prelude.{ℕ, zero, suc, ◌+◌, ◌≡◌, refl, ltb, true, false, inl, inr, Bool-cases}
use btc_parachain.Prelude.Words.{sub32}
use btc_parachain.Containers.LinkedMap.{LinkedMap}
use btc_parachain.Relay.Storage.{Storage, BlockChain, swap_chain}
use btc_parachain.Relay.Order.{shift_loop, insert_sorted}

-- A storage with other chains in their order.
abbrev pub with_chains : LinkedMap → Storage → Storage
with_chains m s = record s { chains = m }

shift_loop_stops :
    (rounds first p : ℕ) (s : Storage)
    → ltb (first + rounds) p ≡ true
    → shift_loop (suc rounds) first p s ≡ s
unfolding shift_loop
shift_loop_stops rounds first p s e = rw (e, shift_loop)

pub shift_loop_step :
    (rounds first p : ℕ) (s : Storage)
    → ltb (first + rounds) p ≡ false
    → shift_loop (suc rounds) first p s
      ≡ shift_loop rounds first p (swap_chain (first + rounds) (sub32 (first + rounds) 1) s)
unfolding shift_loop
shift_loop_step rounds first p s e = rw (e, shift_loop)

shift_loop_keeps :
    (rounds first p : ℕ) (s : Storage)
    → shift_loop rounds first p s ≡ with_chains (shift_loop rounds first p s).chains s
shift_loop_keeps zero first p s = unfold shift_loop in refl
shift_loop_keeps (suc rounds) first p s = elim (Bool-cases (ltb (first + rounds) p)) [
  | inl over ↦ rw (shift_loop_stops rounds first p s over) refl
  | inr on ↦
      rw (shift_loop_step rounds first p s on)
        (shift_loop_keeps rounds first p (swap_chain (first + rounds) (sub32 (first + rounds) 1) s))
]

pub insert_sorted_keeps :
    (b : BlockChain) (s : Storage) → insert_sorted b s ≡ with_chains (insert_sorted b s).chains s
unfolding insert_sorted
insert_sorted_keeps b s = shift_loop_keeps _ _ _ _
