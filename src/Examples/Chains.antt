-- ===== src/Examples/Chains.antt =====
-- Examples of the calls that keep the chains: extension, forks, reorganisation, flags.
use btc_parachain.Prelude.{◌≡◌, refl, [], ◌∷◌, some, arith}
use btc_parachain.Prelude.Result.{ok}
use btc_parachain.Relay.Storage.{
  Storage, BlockChain, put_chain, find_position, fork_ahead_of_main_chain, swap_chain,
}
use btc_parachain.Relay.Dispatch.{store_verified_header}
use btc_parachain.Relay.Dispatch.Extension.{
  rich, OpensFork, store_verified_header_fork, second_header_forks,
}
use btc_parachain.Relay.Reorg.{check_and_do_reorg, split_flags}
use btc_parachain.Relay.Reorg.Loop.{check_and_do_reorg_stops, check_and_do_reorg_announces}
use btc_parachain.Relay.Reorg.Flags.{split_flags_moves_all}
use btc_parachain.Examples.Data.{hash_of, header_on, block_at, fork, stored_chain, two_chains}

store_verified_header_fork_example :
    ((store_verified_header (hash_of 204) (header_on 103) (block_at 103) two_chains).0 ≡ ok tt)
    × OpensFork
        (hash_of 204)
        (header_on 103)
        (block_at 103)
        two_chains
        (store_verified_header (hash_of 204) (header_on 103) (block_at 103) two_chains).1
store_verified_header_fork_example =
    store_verified_header_fork (hash_of 204) (header_on 103) (block_at 103) two_chains
      (λ same. absurd (ground (arith, same)))

second_header_forks_example :
    let s₁ = (store_verified_header (hash_of 107) (header_on 106) (block_at 106) two_chains).1 in
    let tip = rich (hash_of 107) (header_on 106) 107 0 in
    (s₁.best_block ≡ some (hash_of 107))
    × (s₁.block_headers (hash_of 107) ≡ some tip)
    × OpensFork
        (hash_of 108)
        (header_on 107)
        tip
        s₁
        (store_verified_header (hash_of 108) (header_on 107) tip s₁).1
    × ((store_verified_header (hash_of 108) (header_on 107) tip s₁).1.best_block
        ≡ some (hash_of 107))
second_header_forks_example =
    second_header_forks (hash_of 107) (hash_of 108) (header_on 106) (header_on 107) (block_at 106)
      two_chains refl refl refl refl (omega arith)

-- A fork that is ahead of the main chain, at position 1.
abbrev long_fork : BlockChain
long_fork = record fork {
  chain = (104, hash_of 204) ∷ (113, hash_of 213) ∷ [];
  start_height = 104;
  max_height = 113;
}

fork_listed : find_position 1 two_chains.chains ≡ some 1
unfolding find_position
fork_listed = refl

abbrev short_fork : BlockChain
short_fork = record long_fork { max_height = 110 }

check_and_do_reorg_announces_example :
    check_and_do_reorg short_fork two_chains
    ≡ (ok tt, record two_chains { events = fork_ahead_of_main_chain 106 110 1 ∷ [] })
check_and_do_reorg_announces_example =
    check_and_do_reorg_announces short_fork two_chains (λ e. absurd (ground (arith, e))) fork_listed
      refl (omega arith) (omega arith) (omega arith)

-- Three forks: that at position 3 has passed the one before it, and the main chain too.
abbrev four_chains : Storage
four_chains = record two_chains {
  chains = (0, 0) ∷ (1, 1) ∷ (2, 2) ∷ (3, 3) ∷ [];
  chains_index =
      put_chain 2 (some fork) (put_chain 3 (some (record long_fork { chain_id = 3 })) stored_chain);
}

third_listed : find_position 3 four_chains.chains ≡ some 3
unfolding find_position
third_listed = refl

check_and_do_reorg_stops_example :
    check_and_do_reorg (record long_fork { chain_id = 3 }) four_chains
    ≡ (ok tt, swap_chain 2 3 four_chains)
check_and_do_reorg_stops_example =
    check_and_do_reorg_stops (record long_fork { chain_id = 3 }) four_chains
      (λ e. absurd (ground (arith, e))) 1 third_listed (λ e. absurd (ground (arith, e)))
      (omega arith) (omega arith)

split_flags_moves_all_example : split_flags 104 (101 ∷ 105 ∷ []) ≡ ([], 101 ∷ 105 ∷ [])
split_flags_moves_all_example =
    split_flags_moves_all 104 105 (101 ∷ 105 ∷ []) (omega arith, (omega arith, tt)) (omega arith)
      refl (omega arith)
