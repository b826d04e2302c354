-- ===== src/Relay/History/Listed/Reorg.antt =====
-- `check_and_do_reorg` of crates/btc-relay/src/lib.rs does not fail for a listed fork, and every chain
-- is found by its id after it.
use btc_parachain.Prelude.{
  ℕ, zero, suc, ◌≤◌, ◌<◌, ◌+◌, ◌^◌, ◌≡◌, ◌≢◌, refl, sym, ◌∙◌, inl, inr, Bool-cases, some, List,
  get_elem?, ltb, ◌==◌, arith, Option-cases,
}
use btc_parachain.Prelude.Words.{add32}
use btc_parachain.Prelude.Result.{Result, ok}
use btc_parachain.Containers.BTree
use btc_parachain.Containers.LinkedMap.{lookup, lookup-swap}
use btc_parachain.Containers.LinkedMap.Stacked.{Stacked-swap}
use btc_parachain.Bitcoin.Hash.{H256Le}
use btc_parachain.Relay.Storage.{
  Storage, BlockChain, Event, find_position, swap_chain, get_chain_id_from_position,
  get_block_chain_from_id,
}
use btc_parachain.Relay.Chains.{main_chain_id}
use btc_parachain.Relay.Confirmations.{stable_transaction_confirmations}
use btc_parachain.Relay.Order.Lists.{
  Lists, exchange, get_elem?-exchange, length-exchange, Lists-exchange, Holds-exchange,
}
use btc_parachain.Relay.Order.Once.{Once-exchange, Lists-exchange_from}
use btc_parachain.Relay.Reorg.{swap_main_blockchain, reorg_main, reorg_loop, check_and_do_reorg}
use btc_parachain.Relay.Reorg.Relisting.{lookup-find_position}
use btc_parachain.Relay.History.Listed.{
  Moves, main_height, IsListed-more, IsTopped, IsListed, IsListed-along, IsEntry-Lists,
  find_position-lookup,
}
use btc_parachain.Relay.History.Listed.Swap.{swap_main_blockchain-IsListed}

-- A part of a call goes through, every chain is found by its id, and the best height goes with the main
-- chain.
abbrev pub Succeeds : {E A : Type 0} → ℕ → Storage → A → Result E A × Storage → Type 0
Succeeds calls s a r = (r.0 ≡ ok a) × IsListed (suc calls) r.1 × Moves s r.1

-- Two neighbours in `Chains` change places, of which the first is not the main chain.
module _ (calls : ℕ) (s : Storage) (k : IsListed calls s) (p q v w : ℕ)
    (at_p : get_elem? k.ids p ≡ some v) (at_q : get_elem? k.ids q ≡ some w)
    (p_not_main : v ≢ main_chain_id) (q_not_main : w ≢ main_chain_id) where
  swap_chain-IsListed : IsListed calls (swap_chain p q s)
  swap_chain-IsListed = record {
    ids = exchange p q v w k.ids at_p at_q;
    holds = Holds-exchange p q v w k.ids at_p at_q s.chains k.holds;
    stacked =
        Stacked-swap p q v w s.chains (k.holds.entries p ∙ at_p) (k.holds.entries q ∙ at_q)
          k.stacked;
    main_first = ground (arith, get_elem?-exchange p q v w k.ids at_p at_q 0, k.main_first);
    few = rw (length-exchange p q v w k.ids at_p at_q) k.few;
    counted = k.counted;
    once = Once-exchange p q v w k.ids at_p at_q k.once;
    below = λ j u e.
        let (i, old) = Lists-exchange_from p q v w k.ids at_p at_q j u e in k.below i u old;
    entries = λ id c e.
        let old = k.entries id c e in
        IsEntry-Lists k.ids (exchange p q v w k.ids at_p at_q) id c
          (Lists-exchange p q v w k.ids at_p at_q c.chain_id old.listed) old;
    best = k.best;
    has_best = k.has_best;
  }

module _ (calls : ℕ) (fork : BlockChain) (small : calls + 1 < 2 ^ 32)
    (not_main : fork.chain_id ≢ main_chain_id) (topped : IsTopped fork) (tip : H256Le)
    (has_tip : BTree.get fork.max_height fork.chain ≡ some tip) where
  along :
      (n : ℕ) (s : Storage) (events : List Event)
      → IsListed n s
      → IsListed n (record s { events = events })
  along n s events k =
      IsListed-along n s (record s { events = events }) k.best refl refl refl k.has_best k

  more :
      (s : Storage) (events : List Event)
      → IsListed calls s
      → IsListed (suc calls) (record s { events = events })
  more s events k =
      IsListed-more calls (suc calls) (record s { events = events }) (omega arith)
        (along calls s events k)

  reorg_main-IsListed :
      (prev_height current_height : ℕ) (s : Storage) (k : IsListed calls s)
      → Lists k.ids fork.chain_id
      → main_height s < fork.max_height
      → Succeeds calls s tt (reorg_main fork prev_height current_height s)
  unfolding reorg_main
  reorg_main-IsListed prev_height current_height s k listed lower =
      elim (Bool-cases (ltb (add32 prev_height stable_transaction_confirmations) current_height)) [
        | inl ahead ↦
            let (done, after, moves) =
              swap_main_blockchain-IsListed calls fork s k small not_main listed topped tip has_tip
                lower in
            let e : reorg_main fork prev_height current_height s ≡ (
              ok tt,
              record (swap_main_blockchain fork s).1 {
                events = (reorg_main fork prev_height current_height s).1.events;
              },
            ) =
              ground arith in
            rw e (refl, along (suc calls) (swap_main_blockchain fork s).1 _ after, moves)
        | inr near ↦
            let e : reorg_main fork prev_height current_height s ≡ (
              ok tt,
              record s { events = (reorg_main fork prev_height current_height s).1.events },
            ) =
              ground arith in
            rw e (refl, more s _ k, inl (refl, refl))
      ]

  reorg_loop-IsListed :
      (position current_height : ℕ) (s : Storage) (k : IsListed calls s)
      → lookup position s.chains ≡ some fork.chain_id
      → current_height ≤ fork.max_height
      → Succeeds calls s tt (reorg_loop fork position current_height s)
  reorg_loop-IsListed zero current_height s k at le =
      unfold reorg_loop in (refl, more s s.events k, inl (refl, refl))
  reorg_loop-IsListed (suc position) current_height s k at le =
      let id = get_chain_id_from_position position s in
      let height = (get_block_chain_from_id id s).max_height in
      elim (Bool-cases (ltb height current_height)) [
        | inr stop ↦
            let e : reorg_loop fork (suc position) current_height s ≡ (ok tt, s) =
              unfold reorg_loop in ground arith in
            rw e (refl, more s s.events k, inl (refl, refl))
        | inl passed ↦ elim (Bool-cases (id == main_chain_id)) [
          | inl main ↦
              let e : reorg_loop fork (suc position) current_height s
                  ≡ reorg_main fork height current_height s =
                unfold reorg_loop in ground arith in
              let first : id ≡ main_chain_id = ground arith in
              let lower : main_height s < fork.max_height = ground (arith, first) in
              rw e (
                reorg_main-IsListed height current_height s k
                  (suc position, sym (k.holds.entries (suc position)) ∙ at) lower)
          | inr other ↦
              let swapped = swap_chain position (suc position) s in
              let e : reorg_loop fork (suc position) current_height s
                  ≡ reorg_loop fork position height swapped =
                unfold reorg_loop in ground arith in
              let here : get_elem? k.ids position ≡ some id =
                ground (arith, k.holds.entries position) in
              let there : get_elem? k.ids (suc position) ≡ some fork.chain_id =
                sym (k.holds.entries (suc position)) ∙ at in
              rw e (
                reorg_loop-IsListed position height swapped
                  (swap_chain-IsListed calls s k position (suc position) id fork.chain_id here there
                    (ground arith) not_main)
                  (ground (arith, lookup-swap position position (suc position) s.chains))
                  (ground arith))
        ]
      ]

  pub check_and_do_reorg-IsListed :
      (s : Storage) (k : IsListed calls s)
      → Lists k.ids fork.chain_id
      → Succeeds calls s tt (check_and_do_reorg fork s)
  check_and_do_reorg-IsListed s k (p, at) =
      let (q, found) = find_position-lookup fork.chain_id s.chains p (k.holds.entries p ∙ at) in
      let e : check_and_do_reorg fork s ≡ reorg_loop fork q fork.max_height s =
        unfold check_and_do_reorg in ground arith in
      rw e (
        reorg_loop-IsListed q fork.max_height s k
          (lookup-find_position fork.chain_id q s.chains k.holds.distinct found) (omega arith))

reorg_loop_low : (fork : BlockChain) (q : ℕ) (s : Storage) → reorg_loop fork q 0 s ≡ (ok tt, s)
unfolding reorg_loop
reorg_loop_low fork zero s = refl
reorg_loop_low fork (suc q) s = ground arith

-- A fork of the height 0 overtakes nothing.
pub check_and_do_reorg_low :
    (fork : BlockChain) (s : Storage) → fork.max_height ≡ 0 → (check_and_do_reorg fork s).1 ≡ s
unfolding check_and_do_reorg
check_and_do_reorg_low fork s low = elim (Bool-cases (fork.chain_id == main_chain_id)) [
  | inl main ↦ ground arith
  | inr other ↦ elim (Option-cases (find_position fork.chain_id s.chains)) [
    | inl missing ↦ ground arith
    | inr (q, found) ↦ ground (arith, reorg_loop_low fork q s)
  ]
]
