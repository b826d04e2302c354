-- ===== src/Examples/Swaps.antt =====
-- Examples of a swap with the main chain that leaves the forks out of order.
use btc_parachain.Prelude.{ℕ, zero, suc, ◌≡◌, refl, [], ◌∷◌, some, arith, get_elem?, eq_bytes}
use btc_parachain.Prelude.Result.{ok}
use btc_parachain.Bitcoin.Hash.{eq}
use btc_parachain.Containers.LinkedMap.{lookup, insert, swap}
use btc_parachain.Containers.LinkedMap.Listing.{Holds}
use btc_parachain.Relay.Storage.{
  Storage, BlockChain, put_chain, increment_chain_counter, find_position,
  remove_blockchain_from_chain,
}
use btc_parachain.Relay.Order.{insert_sorted, find_slot, shift_loop, sort_by_key, insert_by_key}
use btc_parachain.Relay.Order.Placing.{place_fork}
use btc_parachain.Relay.Order.Insertion.{height_of}
use btc_parachain.Relay.Reorg.{
  swap_main_blockchain, joined_chain, set_chain_refs, forked_main_chain, tip_of, split_flags,
  first_index_from,
}
use btc_parachain.Relay.Reorg.Relisting.{swap_main_blockchain-Holds}
use btc_parachain.Examples.Data.{hash_of, main, fork, stored_chain, two_chains}

-- Three forks in the order of their heights, of which the first is to replace the main chain.
abbrev long_fork : BlockChain
long_fork = record fork {
  chain = (104, hash_of 204) ∷ (213, hash_of 213) ∷ [];
  start_height = 104;
  max_height = 213;
}

abbrev three_forks : Storage
three_forks = record two_chains {
  chains = (3, 3) ∷ (2, 2) ∷ (1, 1) ∷ (0, 0) ∷ [];
  chains_index =
      put_chain 2 (some (record fork { chain_id = 2; max_height = 150 }))
        (put_chain 3 (some (record fork { chain_id = 3; max_height = 104 })) stored_chain);
  chain_counter = 3;
}

long_fork_tip : tip_of (joined_chain main long_fork) ≡ ok (hash_of 213)
unfolding joined_chain
long_fork_tip = refl

fork_listed : find_position 1 three_forks.chains ≡ some 1
unfolding find_position
fork_listed = refl

listed : Holds three_forks.chains (0 ∷ 1 ∷ 2 ∷ 3 ∷ [])
listed = record { distinct = (refl, (refl, (refl, (refl, tt)))); size = refl; entries = entry }
  where
    entry : (k : ℕ) → lookup k three_forks.chains ≡ get_elem? (0 ∷ 1 ∷ 2 ∷ 3 ∷ []) k
    entry zero = refl
    entry (suc zero) = refl
    entry (suc (suc zero)) = refl
    entry (suc (suc (suc zero))) = refl
    entry (suc (suc (suc (suc k)))) = ground arith

abbrev swapped : Storage
swapped = (swap_main_blockchain long_fork three_forks).1

swap_main_blockchain-Holds_example :
    Holds swapped.chains (place_fork (height_of swapped) 106 4 (0 ∷ 3 ∷ 2 ∷ []))
swap_main_blockchain-Holds_example =
    swap_main_blockchain-Holds long_fork three_forks (hash_of 213) 1 long_fork_tip fork_listed
      (0 ∷ 1 ∷ 2 ∷ 3 ∷ []) listed (refl, (refl, (refl, (refl, tt)))) (omega arith)

-- After the swap the fork of the height 150 is listed last, behind one of the height 104: position 1
-- has the height 106 of the replaced main chain.
swap_breaks_order :
    (swapped.chains ≡ (3, 2) ∷ (2, 3) ∷ (1, 4) ∷ (0, 0) ∷ [])
    × (height_of swapped 4 ≡ 106)
    × (height_of swapped 3 ≡ 104)
    × (height_of swapped 2 ≡ 150)
unfolding swap_main_blockchain increment_chain_counter joined_chain forked_main_chain split_flags
    first_index_from find_position remove_blockchain_from_chain insert swap insert_sorted find_slot
    shift_loop sort_by_key insert_by_key set_chain_refs eq eq_bytes
swap_breaks_order = (refl, refl, refl, refl)
