-- ===== src/Relay/History/Listed/Swap.antt =====
-- After `swap_main_blockchain` of crates/btc-relay/src/lib.rs every chain is found by its id again.
use btc_parachain.Prelude.{
  ℕ, suc, ◌≤◌, ◌<◌, ◌+◌, ◌^◌, ◌≡◌, ◌≢◌, refl, ap, sym, ◌∙◌, inl, inr, Bool-cases, some, none, List,
  length, get_elem?, ◌==◌, arith, Option-cases,
}
use btc_parachain.Prelude.Result.{ok}
use btc_parachain.Containers.BTree
use btc_parachain.Containers.BTree.{get-append, or_else}
use btc_parachain.Bitcoin.Hash.{H256Le}
use btc_parachain.Relay.Storage.{Storage, BlockChain, put_chain, find_position}
use btc_parachain.Relay.Chains.{main_chain_id}
use btc_parachain.Relay.Order.Insertion.{height_of}
use btc_parachain.Relay.Order.Placing.{place_fork}
use btc_parachain.Relay.Order.Vacate.{vacate, length-vacate}
use btc_parachain.Relay.Order.Lists.{
  Lists, Lists-vacate, first-vacate, Lists-place_fork, Lists-place_fork_new, first-place_fork,
  length-place_fork, position_below,
}
use btc_parachain.Relay.Order.Once.{
  Once, Once-place_fork, Once-vacate, Lists-place_fork_from, Lists-vacate_from,
}
use btc_parachain.Relay.History.Listed.{
  Below, IsTopped, IsEntry, Entries, IsListed, IsEntry-get, IsEntry-Lists, Entries-put_chain,
  find_position-lookup, main_height, Moves,
}
use btc_parachain.Relay.Reorg.{joined_chain, forked_main_chain, tip_of, swap_main_blockchain}
use btc_parachain.Relay.Reorg.Swap
use btc_parachain.Relay.Reorg.Swap.{get-joined_chain, get-forked_main_chain}
use btc_parachain.Relay.Reorg.Relisting.{
  lookup-find_position, swapped_entries, swap_main_blockchain-Holds, swap_main_blockchain-Stacked,
}

module _ (main fork : BlockChain) where
  joined-IsTopped :
      IsTopped main
      → IsTopped fork
      → main.max_height ≤ fork.max_height
      → IsTopped (joined_chain main fork)
  unfolding joined_chain
  joined-IsTopped a b le = (
    λ k hash e. elim (Option-cases (BTree.get k fork.chain)) [
      | inr (v, found) ↦ b.0 k v found
      | inl missing ↦ elim (Option-cases (BTree.get k main.chain)) [
        | inr (v, old) ↦ omega (arith, a.0 k v old, le)
        | inl none_there ↦ absurd (ground (arith, get-joined_chain main fork k))
      ]
    ],
    b.1,
  )

  forked-IsTopped : (id : ℕ) → IsTopped main → IsTopped (forked_main_chain id main fork)
  unfolding forked_main_chain
  forked-IsTopped id a =
      (λ k hash e. a.0 k hash (ground (arith, get-forked_main_chain id main fork k)), a.1)

  tip_of-joined_chain :
      (hash : H256Le)
      → BTree.get fork.max_height fork.chain ≡ some hash
      → tip_of (joined_chain main fork) ≡ ok hash
  unfolding joined_chain
  tip_of-joined_chain hash e = ground (arith, get-joined_chain main fork fork.max_height)

-- A fork that is not the main chain, is listed, has a block at its height and none above, and is not
-- lower than the main chain, takes its place.
module _ (calls : ℕ) (fork : BlockChain) (s : Storage) (k : IsListed calls s)
    (small : calls + 1 < 2 ^ 32) (not_main : fork.chain_id ≢ main_chain_id)
    (listed : Lists k.ids fork.chain_id) (topped : IsTopped fork) (tip : H256Le)
    (has_tip : BTree.get fork.max_height fork.chain ≡ some tip)
    (lower : main_height s < fork.max_height) where
  abbrev main : BlockChain
  main = Swap.old_main fork s

  joined_tip : tip_of (joined_chain main fork) ≡ ok tip
  joined_tip = tip_of-joined_chain main fork tip has_tip

  found : (q : ℕ) × (find_position fork.chain_id s.chains ≡ some q)
  found = find_position-lookup fork.chain_id s.chains listed.0 (k.holds.entries listed.0 ∙ listed.1)

  few_ids : length k.ids < 2 ^ 32
  few_ids = omega (arith, k.few, small)

  at_position : get_elem? k.ids found.0 ≡ some fork.chain_id
  at_position =
      sym (k.holds.entries found.0)
      ∙ lookup-find_position fork.chain_id found.0 s.chains k.holds.distinct found.1

  abbrev after : Storage
  after = (swap_main_blockchain fork s).1

  abbrev ids' : List ℕ
  ids' = place_fork (height_of after) main.max_height (Swap.new_id fork s) (vacate found.0 k.ids)

  stay : (j : ℕ) → j ≢ fork.chain_id → Lists k.ids j → Lists ids' j
  stay j other l =
      Lists-place_fork (height_of after) main.max_height (Swap.new_id fork s) (vacate found.0 k.ids)
        j (Lists-vacate k.ids found.0 fork.chain_id at_position j other l)

  main_stays : get_elem? ids' 0 ≡ some main_chain_id
  main_stays =
      first-place_fork (height_of after) main.max_height (Swap.new_id fork s) (vacate found.0 k.ids)
        main_chain_id
        (first-vacate k.ids found.0 fork.chain_id at_position main_chain_id (λ e. not_main (sym e))
          k.main_first)

  main_id : main.chain_id ≡ main_chain_id
  main_id = elim (IsEntry-get calls s k main_chain_id).own [ inl e ↦ e | inr e ↦ e.0 ]

  joined-IsEntry : IsEntry ids' main_chain_id (joined_chain main fork)
  unfolding joined_chain
  joined-IsEntry = record {
    own = inl main_id;
    listed = (0, main_stays ∙ ap some (sym main_id));
    topped =
        joined-IsTopped main fork (IsEntry-get calls s k main_chain_id).topped topped
          (omega (arith, lower));
  }

  forked-IsEntry : IsEntry ids' (Swap.new_id fork s) (Swap.forked fork s)
  unfolding forked_main_chain
  forked-IsEntry = record {
    own = inl refl;
    listed =
        Lists-place_fork_new (height_of after) main.max_height (Swap.new_id fork s)
          (vacate found.0 k.ids);
    topped =
        forked-IsTopped main fork (Swap.new_id fork s) (IsEntry-get calls s k main_chain_id).topped;
  }

  others-Entries : Entries ids' (
      put_chain fork.chain_id none
        (put_chain main_chain_id (some (joined_chain main fork)) s.chains_index))
  others-Entries j c e = elim (Bool-cases (j == fork.chain_id)) [
    | inl gone ↦ absurd (ground arith)
    | inr there ↦ elim (Bool-cases (j == main_chain_id)) [
      | inl first ↦
          let at : j ≡ main_chain_id = ground arith in
          let is : joined_chain main fork ≡ c = ground arith in rw (at, ← is) joined-IsEntry
      | inr other ↦
          let old = k.entries j c (ground arith) in
          IsEntry-Lists k.ids ids' j c
            (stay c.chain_id
              (λ same. elim old.own [
                | inl own ↦ ground (arith, own, same)
                | inr first ↦ not_main (sym same ∙ first.0)
              ])
              old.listed)
            old
    ]
  ]

  few_ids' : length ids' ≤ suc calls
  few_ids' = omega (
    arith,
    length-place_fork (height_of after) main.max_height (Swap.new_id fork s) (vacate found.0 k.ids),
    length-vacate found.0 k.ids,
    position_below k.ids found.0 fork.chain_id at_position,
    k.few,
  )

  new_id-suc : Swap.new_id fork s ≡ suc s.chain_counter
  new_id-suc = omega (arith, k.counted, small)

  once' : Once ids'
  once' =
      Once-place_fork (height_of after) main.max_height (Swap.new_id fork s) (vacate found.0 k.ids)
        (λ j e.
          let (i, old) =
            Lists-vacate_from k.ids found.0 fork.chain_id at_position j (Swap.new_id fork s) e in
          absurd (omega (arith, new_id-suc, k.below i (Swap.new_id fork s) old)))
        (Once-vacate k.ids found.0 fork.chain_id at_position k.once)

  below' : Below ids' after.chain_counter
  below' j v e =
      let (done, index, best, height, counter) =
        swapped_entries fork s tip found.0 joined_tip found.1 k.ids k.holds k.stacked few_ids in
      elim (Lists-place_fork_from (height_of after) main.max_height (Swap.new_id fork s)
        (vacate found.0 k.ids) j v e) [
          | inl new ↦ omega (arith, new, counter)
          | inr (i, old) ↦
              let (l, older) = Lists-vacate_from k.ids found.0 fork.chain_id at_position i v old in
              omega (arith, k.below l v older, counter, new_id-suc)
        ]

  main_swapped : main_height after ≡ after.best_block_height
  unfolding joined_chain
  main_swapped =
      let (done, index, best, height, counter) =
        swapped_entries fork s tip found.0 joined_tip found.1 k.ids k.holds k.stacked few_ids in
      let entry : after.chains_index main_chain_id ≡ some (joined_chain main fork) =
        ap (λ f. f main_chain_id) index ∙ ground (arith, k.counted, small, not_main) in
      ground (arith, entry, height)

  pub swap_main_blockchain-IsListed :
      ((swap_main_blockchain fork s).0 ≡ ok tt)
      × IsListed (suc calls) (swap_main_blockchain fork s).1
      × Moves s (swap_main_blockchain fork s).1
  swap_main_blockchain-IsListed =
      let (done, index, best, height, counter) =
        swapped_entries fork s tip found.0 joined_tip found.1 k.ids k.holds k.stacked few_ids in
      (
        done,
        record {
          ids = ids';
          holds =
              swap_main_blockchain-Holds fork s tip found.0 joined_tip found.1 k.ids k.holds
                k.stacked few_ids;
          stacked =
              swap_main_blockchain-Stacked fork s tip found.0 joined_tip found.1 k.ids k.holds
                k.stacked few_ids;
          main_first = main_stays;
          few = omega (arith, few_ids');
          counted = omega (arith, counter, k.counted);
          once = once';
          below = below';
          entries = rw index (
              Entries-put_chain ids' (Swap.new_id fork s) (Swap.forked fork s) _ forked-IsEntry
                others-Entries);
          best = tip;
          has_best = best;
        },
        inr (omega (arith, lower, height), main_swapped),
      )
