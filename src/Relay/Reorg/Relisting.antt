-- ===== src/Relay/Reorg/Relisting.antt =====
-- What `swap_main_blockchain` of crates/btc-relay/src/lib.rs does to the order of the chains.
use btc_parachain.Prelude.{
  ℕ, suc, ◌+◌, ◌^◌, ◌<◌, ◌≡◌, refl, ap, sym, ◌∙◌, some, List, [], ◌∷◌, length, get_elem?, arith,
}
use btc_parachain.Prelude.Result.{ok}
use btc_parachain.Bitcoin.Hash.{H256Le}
use btc_parachain.Containers.LinkedMap
use btc_parachain.Containers.LinkedMap.{LinkedMap, lookup}
use btc_parachain.Containers.LinkedMap.Listing.{Distinct, Holds}
use btc_parachain.Containers.LinkedMap.Stacked.{Stacked}
use btc_parachain.Relay.Storage.{Storage, BlockChain, find_position, or_default, default_chain}
use btc_parachain.Relay.Chains.{main_chain_id}
use btc_parachain.Relay.Order.{insert_sorted}
use btc_parachain.Relay.Order.Placing.{place_fork}
use btc_parachain.Relay.Order.Insertion.{height_of, insert_sorted-Holds, insert_sorted-Stacked}
use btc_parachain.Relay.Order.Vacate.{
  vacate, length-vacate, removed-Holds, removed-Stacked, head_index,
}
use btc_parachain.Relay.Reorg.{
  swap_main_blockchain, joined_chain, forked_main_chain, tip_of, set_chain_refs,
}
use btc_parachain.Relay.Reorg.Headers.{set_chain_refs_keeps}
use btc_parachain.Relay.Reorg.Swap

-- A position that is found holds the id.
pub lookup-find_position :
    (id p : ℕ) (m : LinkedMap) → Distinct m → find_position id m ≡ some p → lookup p m ≡ some id
unfolding find_position
lookup-find_position id p [] d e = absurd (ground arith)
lookup-find_position id p ((k, v) ∷ m) d e = ground (arith, lookup-find_position id p m d.1, d.0)

module _ (fork : BlockChain) (s : Storage) (tip : H256Le) (position : ℕ)
    (has_tip : tip_of (joined_chain (Swap.old_main fork s) fork) ≡ ok tip)
    (listed : find_position fork.chain_id s.chains ≡ some position) (ids : List ℕ)
    (h : Holds s.chains ids) (stacked : Stacked s.chains) (small : length ids < 2 ^ 32) where
  at_position : lookup position s.chains ≡ some fork.chain_id
  at_position = lookup-find_position fork.chain_id position s.chains h.distinct listed

  size : (n : ℕ) × (length ids ≡ suc n)
  size = by_list ids (sym (h.entries position) ∙ at_position)
    where
      by_list :
          (l : List ℕ) → get_elem? l position ≡ some fork.chain_id → (n : ℕ) × (length l ≡ suc n)
      by_list [] e = absurd (ground arith)
      by_list (x ∷ l) e = (length l, refl)

  abbrev unlisted : LinkedMap
  unlisted = LinkedMap.remove size.0 (LinkedMap.swap position size.0 s.chains)

  abbrev based : Storage
  based = Swap.base fork s unlisted tip

  unlisted-Holds : Holds unlisted (vacate position ids)
  unlisted-Holds =
      removed-Holds s.chains ids h stacked position size.0 fork.chain_id size.1 at_position

  unlisted-Stacked : Stacked unlisted
  unlisted-Stacked =
      removed-Stacked s.chains ids h stacked position size.0 fork.chain_id size.1 at_position

  unlisted_small : length (vacate position ids) + 1 < 2 ^ 32
  unlisted_small = omega (arith, length-vacate position ids, size.1)

  -- The storage after the swap is the sorted one with other headers.
  swapped : Storage
  swapped = Swap.after fork s tip position has_tip listed unlisted

  swapped_chains : swapped.chains ≡ (insert_sorted (Swap.forked fork s) based).chains
  unfolding Swap.after swapped
  swapped_chains =
      let sorted = insert_sorted (Swap.forked fork s) based in
      let moved = set_chain_refs (Swap.forked fork s).chain (Swap.new_id fork s) sorted in
      ap (λ (t : Storage). t.chains) (set_chain_refs_keeps fork.chain main_chain_id moved)
      ∙ ap (λ (t : Storage). t.chains)
          (set_chain_refs_keeps (Swap.forked fork s).chain (Swap.new_id fork s) sorted)

  swapped_heights : height_of swapped ≡ height_of based
  unfolding swapped
  swapped_heights =
      ap (λ f id. (or_default default_chain (f id)).max_height)
        (Swap.after_keeps fork s tip position has_tip listed unlisted).0

  swapped_run : swap_main_blockchain fork s ≡ (ok tt, swapped)
  unfolding swapped
  swapped_run =
      Swap.removing_run fork s tip position has_tip listed size.0
        (head_index s.chains ids h stacked position size.0 fork.chain_id size.1 at_position)

  pub swapped_entries :
      ((swap_main_blockchain fork s).0 ≡ ok tt)
      × ((swap_main_blockchain fork s).1.chains_index ≡ (Swap.base fork s [] tip).chains_index)
      × ((swap_main_blockchain fork s).1.best_block ≡ some tip)
      × ((swap_main_blockchain fork s).1.best_block_height ≡ fork.max_height)
      × ((swap_main_blockchain fork s).1.chain_counter ≡ Swap.new_id fork s)
  unfolding swapped
  swapped_entries =
      let (index, best, height, counter) =
        Swap.after_keeps fork s tip position has_tip listed unlisted in
      rw swapped_run (refl, index, best, height, counter)

  -- Where `Chains` holds a list of fewer than 2 ^ 32 chain ids, numbered as they came in, and a fork
  -- that is listed in it takes the place of the main chain, which then has a block at the height of
  -- the fork: the last listed chain moves to the position of the fork. Then the new id of the
  -- replaced blocks is put in front of the first fork that is not higher than the old main chain, or
  -- at the end, and the first listed chain keeps its place.
  pub swap_main_blockchain-Holds :
      let s' = (swap_main_blockchain fork s).1 in
      Holds s'.chains (
        place_fork
          (height_of s')
          (Swap.old_main fork s).max_height
          (Swap.new_id fork s)
          (vacate position ids))
  unfolding forked_main_chain
  swap_main_blockchain-Holds =
      rw (swapped_run, swapped_chains, swapped_heights)
        (insert_sorted-Holds (Swap.forked fork s) based (vacate position ids) unlisted-Holds
          unlisted_small)

  pub swap_main_blockchain-Stacked : Stacked (swap_main_blockchain fork s).1.chains
  swap_main_blockchain-Stacked =
      rw (swapped_run, swapped_chains)
        (insert_sorted-Stacked (Swap.forked fork s) based (vacate position ids) unlisted-Holds
          unlisted_small unlisted-Stacked)
