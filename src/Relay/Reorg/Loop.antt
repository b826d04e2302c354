-- ===== src/Relay/Reorg/Loop.antt =====
-- The loop of `check_and_do_reorg` of crates/btc-relay/src/lib.rs.
use btc_parachain.Prelude.{ℕ, suc, ◌+◌, ◌^◌, ◌≤◌, ◌<◌, ◌≡◌, ◌≢◌, some, arith, ◌∷◌, ◌++◌, []}
use btc_parachain.Prelude.Result.{ok}
use btc_parachain.Containers.LinkedMap.{lookup-swap}
use btc_parachain.Relay.Storage.{
  Storage, BlockChain, find_position, get_chain_id_from_position, get_block_chain_from_id,
  swap_chain, fork_ahead_of_main_chain,
}
use btc_parachain.Relay.Chains.{main_chain_id}
use btc_parachain.Relay.Reorg.{check_and_do_reorg, reorg_loop, reorg_main}

-- The height of the chain that `Chains` lists at a position.
abbrev pub height_at : ℕ → Storage → ℕ
height_at position s =
    (get_block_chain_from_id (get_chain_id_from_position position s) s).max_height

module _ (fork : BlockChain) (s : Storage) (not_main : fork.chain_id ≢ main_chain_id) where
  -- A fork at position 2 or behind that has grown past the fork before it is swapped with that one
  -- and goes no further, where the chain before those two is not lower than the second: also where
  -- the fork has grown past it too, or past the main chain there.
  pub check_and_do_reorg_stops :
      (i : ℕ)
      → find_position fork.chain_id s.chains ≡ some (suc (suc i))
      → get_chain_id_from_position (suc i) s ≢ main_chain_id
      → height_at (suc i) s < fork.max_height
      → height_at (suc i) s ≤ height_at i s
      → check_and_do_reorg fork s ≡ (ok tt, swap_chain (suc i) (suc (suc i)) s)
  unfolding check_and_do_reorg reorg_loop
  check_and_do_reorg_stops i listed not_first passed sorted =
      ground (arith, lookup-swap i (suc i) (suc (suc i)) s.chains)

  -- A fork at position 1, behind the main chain, that is ahead of it by at most six blocks is
  -- announced, and nothing else changes, where the height of the main chain is below 2 ^ 32 - 6.
  pub check_and_do_reorg_announces :
      find_position fork.chain_id s.chains ≡ some 1
      → get_chain_id_from_position 0 s ≡ main_chain_id
      → height_at 0 s < fork.max_height
      → fork.max_height ≤ height_at 0 s + 6
      → height_at 0 s + 6 < 2 ^ 32
      → check_and_do_reorg fork s ≡ (
        ok tt,
        record s {
          events =
              s.events
              ++ fork_ahead_of_main_chain (height_at 0 s) fork.max_height fork.chain_id ∷ [];
        },
      )
  unfolding check_and_do_reorg reorg_loop reorg_main
  check_and_do_reorg_announces listed first ahead near small = ground arith
