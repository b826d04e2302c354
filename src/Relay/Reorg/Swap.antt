-- ===== src/Relay/Reorg/Swap.antt =====
-- `swap_main_blockchain` of crates/btc-relay/src/lib.rs: the whole effect of a chain reorganisation.
use btc_parachain.Prelude.{
  ℕ, ◌≡◌, ◌≢◌, refl, ap, some, none, [], ◌∷◌, ltb, if◌then◌else◌, arith, ◌∙◌,
}
use btc_parachain.Prelude.Words.{add32}
use btc_parachain.Prelude.Result.{ok}
use btc_parachain.Containers.BTree
use btc_parachain.Containers.BTree.{or_else, get-append, get-keys_below, get-keys_from}
use btc_parachain.Containers.LinkedMap
use btc_parachain.Containers.LinkedMap.{LinkedMap}
use btc_parachain.Bitcoin.Hash.{H256Le}
use btc_parachain.Relay.Storage.{
  Storage, BlockChain, find_position, get_block_chain_from_id, put_chain, increment_chain_counter,
  remove_blockchain_from_chain,
}
use btc_parachain.Relay.Chains.{main_chain_id}
use btc_parachain.Relay.Order.{insert_sorted}
use btc_parachain.Relay.Order.Keeps.{insert_sorted_keeps}
use btc_parachain.Relay.Reorg.{
  swap_main_blockchain, joined_chain, forked_main_chain, tip_of, set_chain_refs,
}
use btc_parachain.Relay.Reorg.Headers.{has_block, moved_to, set_chain_refs_keeps}

listed-head :
    (id k : ℕ) (m : LinkedMap) → find_position id m ≡ some k → (j : ℕ) × (LinkedMap.head m ≡ some j)
unfolding find_position
listed-head id k [] h = absurd (ground arith)
listed-head id k ((j, v) ∷ m) h = (j, refl)

-- The blocks of the main chain after the swap: those of the fork, and the old ones below its start.
pub get-joined_chain :
    (main fork : BlockChain) (height : ℕ)
    → BTree.get height (joined_chain main fork).chain
      ≡ or_else
          (BTree.get height fork.chain)
          (if ltb height fork.start_height then BTree.get height main.chain else none)
unfolding joined_chain
get-joined_chain main fork height = ground (
  arith,
  get-append height (BTree.keys_below fork.start_height main.chain) fork.chain,
  get-keys_below height fork.start_height main.chain,
)

-- The blocks of the new fork: the old ones from the start on.
pub get-forked_main_chain :
    (id : ℕ) (main fork : BlockChain) (height : ℕ)
    → BTree.get height (forked_main_chain id main fork).chain
      ≡ (if ltb height fork.start_height then none else BTree.get height main.chain)
unfolding forked_main_chain
get-forked_main_chain id main fork height = get-keys_from height fork.start_height main.chain

joined_height : (main fork : BlockChain) → (joined_chain main fork).max_height ≡ fork.max_height
unfolding joined_chain
joined_height main fork = refl

forked_id : (id : ℕ) (main fork : BlockChain) → (forked_main_chain id main fork).chain_id ≡ id
unfolding forked_main_chain
forked_id id main fork = refl

module _ (fork : BlockChain) (s : Storage) where
  abbrev pub old_main : BlockChain
  old_main = get_block_chain_from_id main_chain_id s

  -- The id of the fork that takes over the replaced blocks.
  abbrev pub new_id : ℕ
  new_id = add32 s.chain_counter 1

  abbrev pub forked : BlockChain
  forked = forked_main_chain new_id old_main fork

  -- The storage after the swap, seen through its maps.
  pub record IsSwapped (tip : H256Le) (s' : Storage) : Type 0 where
    pub best_block : s'.best_block ≡ some tip
    pub best_block_height : s'.best_block_height ≡ fork.max_height
    pub main_entry : s'.chains_index main_chain_id ≡ some (joined_chain old_main fork)
    pub forked_entry : s'.chains_index new_id ≡ some forked
    pub fork_gone : s'.chains_index fork.chain_id ≡ none
    pub others :
        (id : ℕ)
        → id ≢ main_chain_id
        → id ≢ new_id
        → id ≢ fork.chain_id
        → s'.chains_index id ≡ s.chains_index id
    pub headers :
        (hash : H256Le)
        → s'.block_headers hash ≡ (
            if has_block hash fork.chain
            then some (moved_to main_chain_id (s.block_headers hash))
            else if has_block hash forked.chain
            then some (moved_to new_id (s.block_headers hash))
            else s.block_headers hash)

  abbrev pub base : LinkedMap → H256Le → Storage
  base m tip = record s {
    chains = m;
    chains_index = put_chain new_id (some forked) (
        put_chain fork.chain_id none
          (put_chain main_chain_id (some (joined_chain old_main fork)) s.chains_index));
    best_block = some tip;
    best_block_height = fork.max_height;
    chain_counter = new_id;
  }

  module _ (tip : H256Le) (position : ℕ) (has_tip : tip_of (joined_chain old_main fork) ≡ ok tip)
      (listed : find_position fork.chain_id s.chains ≡ some position) where
    -- The storage at the end, by the linked map without the fork.
    unfoldable pub after : LinkedMap → Storage
    after m =
        set_chain_refs fork.chain main_chain_id
          (set_chain_refs forked.chain new_id (insert_sorted forked (base m tip)))

    -- The fork's entry goes by the head of the linked map.
    pub removing_run :
        (head : ℕ)
        → LinkedMap.head s.chains ≡ some head
        → swap_main_blockchain fork s
          ≡ (ok tt, after (LinkedMap.remove head (LinkedMap.swap position head s.chains)))
    unfolding after swap_main_blockchain increment_chain_counter remove_blockchain_from_chain
    removing_run head e =
        ground (arith, joined_height old_main fork, forked_id new_id old_main fork)

    pub swap_run : (m : LinkedMap) × (swap_main_blockchain fork s ≡ (ok tt, after m))
    swap_run =
        let (head, e) = listed-head fork.chain_id position s.chains listed in
        (LinkedMap.remove head (LinkedMap.swap position head s.chains), removing_run head e)

    -- The last three calls write to the order and to the headers alone.
    pub after_keeps :
        (m : LinkedMap)
        → ((after m).chains_index ≡ (base m tip).chains_index)
          × ((after m).best_block ≡ some tip)
          × ((after m).best_block_height ≡ fork.max_height)
          × ((after m).chain_counter ≡ new_id)
    unfolding after
    after_keeps m =
        let sorted = insert_sorted forked (base m tip) in
        let moved = set_chain_refs forked.chain new_id sorted in
        let a = set_chain_refs_keeps fork.chain main_chain_id moved in
        let b = set_chain_refs_keeps forked.chain new_id sorted in
        let c = insert_sorted_keeps forked (base m tip) in
        (
          ap (λ (t : Storage). t.chains_index) a
              ∙ ap (λ (t : Storage). t.chains_index) b
              ∙ ap (λ (t : Storage). t.chains_index) c,
          ap (λ (t : Storage). t.best_block) a
              ∙ ap (λ (t : Storage). t.best_block) b
              ∙ ap (λ (t : Storage). t.best_block) c,
          ap (λ (t : Storage). t.best_block_height) a
              ∙ ap (λ (t : Storage). t.best_block_height) b
              ∙ ap (λ (t : Storage). t.best_block_height) c,
          ap (λ (t : Storage). t.chain_counter) a
              ∙ ap (λ (t : Storage). t.chain_counter) b
              ∙ ap (λ (t : Storage). t.chain_counter) c,
        )
