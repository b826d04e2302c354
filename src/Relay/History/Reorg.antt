-- ===== src/Relay/History/Reorg.antt =====
-- A reorganisation keeps the storage consistent, whatever its outcome (`check_and_do_reorg` of
-- crates/btc-relay/src/lib.rs).
use btc_parachain.Prelude.{
  ℕ, zero, suc, ◌≡◌, refl, Bool-cases, inl, inr, ◌==◌, ltb, Option-cases, ◌⊎◌, List, arith,
}
use btc_parachain.Prelude.Words.{add32}
use btc_parachain.Prelude.Result.{Result-cases}
use btc_parachain.Bitcoin.Hash.{H256Le}
use btc_parachain.Relay.Storage.{
  Storage, Event, swap_chain, get_chain_id_from_position, BlockChain, find_position,
  get_block_chain_from_id,
}
use btc_parachain.Relay.Chains.{main_chain_id}
use btc_parachain.Relay.Confirmations.{stable_transaction_confirmations}
use btc_parachain.Relay.Reorg.{swap_main_blockchain, reorg_main, reorg_loop, check_and_do_reorg}
use btc_parachain.Relay.History.{Grows-refl, AllStored, IsConsistent}
use btc_parachain.Relay.History.Keeps.{Keeps, Keeps-refl, Keeps-trans, IsConsistent-along}
use btc_parachain.Relay.History.Swap.{swap_main_blockchain-Keeps}

pub events-Keeps :
    (genesis : H256Le) (s : Storage) (events : List Event)
    → IsConsistent genesis s
    → Keeps genesis s (record s { events = events })
events-Keeps genesis s events k = record {
  consistent = IsConsistent-along genesis s (record s { events = events }) refl refl refl refl k;
  grows = Grows-refl s.block_headers;
  within = λ hash e. e;
}

reorg_main_run :
    (fork : BlockChain) (prev_height current_height : ℕ) (s : Storage)
    → let s' = (reorg_main fork prev_height current_height s).1 in
      let swapped = (swap_main_blockchain fork s).1 in
      (s' ≡ swapped)
      ⊎ (s' ≡ record swapped { events = s'.events })
      ⊎ (s' ≡ record s { events = s'.events })
unfolding reorg_main
reorg_main_run fork prev_height current_height s =
    elim (Bool-cases (ltb (add32 prev_height stable_transaction_confirmations) current_height)) [
      | inl ahead ↦ elim (Result-cases (swap_main_blockchain fork s).0) [
        | inl (u, e) ↦ inr (inl (ground arith))
        | inr stop ↦ inl (ground arith)
      ]
      | inr near ↦ inr (inr (ground arith))
    ]

reorg_main-Keeps :
    (genesis : H256Le) (fork : BlockChain) (prev_height current_height : ℕ) (s : Storage)
    → AllStored s.block_headers fork.chain
    → IsConsistent genesis s
    → Keeps genesis s (reorg_main fork prev_height current_height s).1
reorg_main-Keeps genesis fork prev_height current_height s all k =
    let swapped = swap_main_blockchain-Keeps genesis fork s all k in
    elim (reorg_main_run fork prev_height current_height s) [
      | inl e ↦ rw e swapped
      | inr (inl e) ↦ rw e (
          Keeps-trans genesis s _ _ swapped
            (events-Keeps genesis (swap_main_blockchain fork s).1 _ swapped.consistent))
      | inr (inr e) ↦ rw e (events-Keeps genesis s _ k)
    ]

reorg_loop-Keeps :
    (genesis : H256Le) (fork : BlockChain) (position current_height : ℕ) (s : Storage)
    → AllStored s.block_headers fork.chain
    → IsConsistent genesis s
    → Keeps genesis s (reorg_loop fork position current_height s).1
unfolding reorg_loop
reorg_loop-Keeps genesis fork zero current_height s all k = Keeps-refl genesis s k
reorg_loop-Keeps genesis fork (suc position) current_height s all k =
    let id = get_chain_id_from_position position s in
    let height = (get_block_chain_from_id id s).max_height in
    elim (Bool-cases (ltb height current_height)) [
      | inr stop ↦
          let e : (reorg_loop fork (suc position) current_height s).1 ≡ s = ground arith in
          rw e (Keeps-refl genesis s k)
      | inl passed ↦ elim (Bool-cases (id == main_chain_id)) [
        | inl main ↦
            let e : (reorg_loop fork (suc position) current_height s).1
                ≡ (reorg_main fork height current_height s).1 =
              ground arith in
            rw e (reorg_main-Keeps genesis fork height current_height s all k)
        | inr other ↦
            let swapped = swap_chain position (suc position) s in
            let rest =
              reorg_loop-Keeps genesis fork position height swapped all
                (IsConsistent-along genesis s swapped refl refl refl refl k) in
            let e : (reorg_loop fork (suc position) current_height s).1
                ≡ (reorg_loop fork position height swapped).1 =
              ground arith in
            rw e (record { consistent = rest.consistent; grows = rest.grows; within = rest.within })
      ]
    ]

-- A fork whose blocks are stored is put in its place, or swapped with the main chain, or refused, and
-- the storage stays consistent.
pub check_and_do_reorg-Keeps :
    (genesis : H256Le) (fork : BlockChain) (s : Storage)
    → AllStored s.block_headers fork.chain
    → IsConsistent genesis s
    → Keeps genesis s (check_and_do_reorg fork s).1
unfolding check_and_do_reorg
check_and_do_reorg-Keeps genesis fork s all k = elim (Bool-cases (fork.chain_id == main_chain_id)) [
  | inl main ↦
      let e : (check_and_do_reorg fork s).1 ≡ s = ground arith in rw e (Keeps-refl genesis s k)
  | inr other ↦ elim (Option-cases (find_position fork.chain_id s.chains)) [
    | inl missing ↦
        let e : (check_and_do_reorg fork s).1 ≡ s = ground arith in rw e (Keeps-refl genesis s k)
    | inr (position, listed) ↦
        let e : (check_and_do_reorg fork s).1 ≡ (reorg_loop fork position fork.max_height s).1 =
          ground arith in
        rw e (reorg_loop-Keeps genesis fork position fork.max_height s all k)
  ]
]
