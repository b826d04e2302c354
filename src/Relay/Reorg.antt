-- ===== src/Relay/Reorg.antt =====
-- `swap_main_blockchain` and `check_and_do_reorg` of crates/btc-relay/src/lib.rs.
pub mod Swap
pub mod Relisting
pub mod Loop
pub mod Flags
pub mod Headers
use btc_parachain.Prelude.{
  ℕ, zero, suc, ◌+◌, ◌%◌, ◌^◌, Bool, true, false, Option, none, some, List, [], ◌∷◌, ltb, leb, ◌==◌,
  if◌then◌else◌,
}
use btc_parachain.Prelude.Words.{add32, sub32}
use btc_parachain.Prelude.Result.{Result, ok, err}
use btc_parachain.Containers.BTree
use btc_parachain.Containers.BTree.{BTreeMap, BTreeSet}
use btc_parachain.BtcCore.{Error, block_not_found}
use btc_parachain.Bitcoin.Hash.{H256Le}
use btc_parachain.Relay.Storage.{
  Storage, BlockChain, Action, pure, raise, lift, gets, modify, deposit_event, ◌>>=◌, ◌>>◌,
  get_block_chain_from_id, get_chain_position_from_chain_id, get_chain_id_from_position,
  set_block_chain_from_id, set_best_block, set_best_block_height, remove_blockchain_from_chainindex,
  remove_blockchain_from_chain, mutate_block_header_from_chain_id, swap_chain, get_best_block,
  increment_chain_counter, chain_reorg, fork_ahead_of_main_chain,
}
use btc_parachain.Relay.Chains.{main_chain_id}
use btc_parachain.Relay.Confirmations.{stable_transaction_confirmations}
use btc_parachain.Relay.Order.{insert_sorted}

-- `.iter().position(|&h| h >= start_height)`
unfoldable pub first_index_from : ℕ → ℕ → BTreeSet → Option ℕ
first_index_from start_height i [] = none
first_index_from start_height i (h ∷ s) =
    if leb start_height h then some i else first_index_from start_height (i + 1) s

-- The flagged heights that go with the replaced blocks: `split_off(&index)`, by an index and not by
-- a height.
unfoldable pub split_flags : ℕ → BTreeSet → BTreeSet × BTreeSet
split_flags start_height flags = elim (first_index_from start_height 0 flags) [
  | none ↦ (flags, [])
  | some i ↦ (BTree.below (i % 2 ^ 32) flags, BTree.from (i % 2 ^ 32) flags)
]

-- The loops over the headers of a chain.
unfoldable pub set_chain_refs : BTreeMap H256Le → ℕ → Storage → Storage
set_chain_refs [] chain_ref s = s
set_chain_refs ((height, block) ∷ m) chain_ref s =
    set_chain_refs m chain_ref (mutate_block_header_from_chain_id block chain_ref s)

-- The main chain with the fork in place of its blocks from `start_height` on.
unfoldable pub joined_chain : BlockChain → BlockChain → BlockChain
joined_chain main_chain fork = record main_chain {
  chain = BTree.append (BTree.keys_below fork.start_height main_chain.chain) fork.chain;
  max_height = fork.max_height;
  no_data = BTree.union (split_flags fork.start_height main_chain.no_data).0 fork.no_data;
  invalid = BTree.union (split_flags fork.start_height main_chain.invalid).0 fork.invalid;
}

-- The new fork that holds the replaced blocks.
unfoldable pub forked_main_chain : ℕ → BlockChain → BlockChain → BlockChain
forked_main_chain chain_id main_chain fork = record {
  chain_id = chain_id;
  chain = BTree.keys_from fork.start_height main_chain.chain;
  start_height = fork.start_height;
  max_height = main_chain.max_height;
  no_data = (split_flags fork.start_height main_chain.no_data).1;
  invalid = (split_flags fork.start_height main_chain.invalid).1;
}

abbrev pub tip_of : BlockChain → Result Error H256Le
tip_of c = elim (BTree.get c.max_height c.chain) [
  | none ↦ err block_not_found
  | some block ↦ ok block
]

unfoldable pub swap_main_blockchain : BlockChain → Action Error (Unit {0})
swap_main_blockchain fork = do
  old_main ← gets (get_block_chain_from_id main_chain_id)
  chain_id ← increment_chain_counter
  let forked_main = forked_main_chain chain_id old_main fork
  let main_chain = joined_chain old_main fork
  best_block ← lift (tip_of main_chain)
  position ← (λ s. (get_chain_position_from_chain_id fork.chain_id s, s))
  modify (set_block_chain_from_id main_chain_id main_chain)
  modify (set_best_block best_block)
  modify (set_best_block_height main_chain.max_height)
  modify (remove_blockchain_from_chainindex fork.chain_id)
  remove_blockchain_from_chain position
  modify (set_block_chain_from_id forked_main.chain_id forked_main)
  modify (insert_sorted forked_main)
  modify (set_chain_refs forked_main.chain forked_main.chain_id)
  modify (set_chain_refs fork.chain main_chain_id)

-- The main chain is the next one above the fork: it is replaced, or only announced to lag behind.
unfoldable pub reorg_main : BlockChain → ℕ → ℕ → Action Error (Unit {0})
reorg_main fork prev_height current_height =
    elim (ltb (add32 prev_height stable_transaction_confirmations) current_height) [
      | true ↦ do
        swap_main_blockchain fork
        new_chain_tip ← gets get_best_block
        block_height ← gets (λ s. s.best_block_height)
        deposit_event
            (chain_reorg new_chain_tip block_height (sub32 fork.max_height fork.start_height))
      | false ↦ deposit_event (fork_ahead_of_main_chain prev_height fork.max_height fork.chain_id)
    ]

-- The `while` loop over `current_position`, with `current_height`.
unfoldable pub reorg_loop : BlockChain → ℕ → ℕ → Action Error (Unit {0})
reorg_loop fork zero current_height s = (ok tt, s)
reorg_loop fork (suc prev_position) current_height s =
    let prev_blockchain_id = get_chain_id_from_position prev_position s in
    let prev_height = (get_block_chain_from_id prev_blockchain_id s).max_height in
    elim (ltb prev_height current_height) [
      | false ↦ (ok tt, s)
      | true ↦ elim (prev_blockchain_id == main_chain_id) [
        | true ↦ reorg_main fork prev_height current_height s
        | false ↦
            reorg_loop fork prev_position prev_height
              (swap_chain prev_position (suc prev_position) s)
      ]
    ]

unfoldable pub check_and_do_reorg : BlockChain → Action Error (Unit {0})
check_and_do_reorg fork = if fork.chain_id == main_chain_id then pure tt else do
  fork_position ← (λ s. (get_chain_position_from_chain_id fork.chain_id s, s))
  reorg_loop fork fork_position fork.max_height
