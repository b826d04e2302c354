-- ===== src/Relay/Dispatch/Extension.antt =====
-- `store_block_header` of crates/btc-relay/src/lib.rs for a verified header on the main chain.
use btc_parachain.Prelude.{
  ℕ, ◌+◌, ◌≡◌, ◌≢◌, refl, ap, ◌∙◌, true, not, ◌==◌, some, none, List, [], if◌then◌else◌,
}
use btc_parachain.Prelude.{arith, ◌∷◌, ◌++◌, ◌<◌, ◌^◌}
use btc_parachain.Prelude.Words.{add32}
use btc_parachain.Prelude.Result.{ok}
use btc_parachain.Containers.BTree
use btc_parachain.Bitcoin.Types.{BlockHeader, RichBlockHeader}
use btc_parachain.Bitcoin.Hash
use btc_parachain.Bitcoin.Hash.{H256Le, eq_refl}
use btc_parachain.Relay.Storage.{
  Storage, BlockChain, get_block_chain_from_id, put_header, put_chain, Event,
  increment_chain_counter, store_main_chain_header, store_fork_header, get_best_block,
}
use btc_parachain.Relay.Chains.{
  main_chain_id, extend_blockchain, create_blockchain, generate_blockchain,
}
use btc_parachain.Relay.Order.{insert_sorted}
use btc_parachain.Relay.Order.Keeps.{insert_sorted_keeps}
use btc_parachain.Relay.Reorg.{check_and_do_reorg}
use btc_parachain.Relay.Dispatch.{store_verified_header, next_blockchain, store_blockchain}

-- The header that is stored for a new block.
abbrev pub rich : H256Le → BlockHeader → ℕ → ℕ → RichBlockHeader
rich hash h height chain_ref = record {
  block_hash = hash;
  block_header = h;
  block_height = height;
  chain_ref = chain_ref;
}

module _ (hash : H256Le) (h : BlockHeader) (prev : RichBlockHeader) (s : Storage) where
  abbrev main : BlockChain
  main = get_block_chain_from_id main_chain_id s

  -- A header on the tip of the main chain is stored as the best block at the next height (a u32
  -- sum), where the main chain is stored under its own id and has no block at that height. The
  -- entry of the main chain stays as it was: neither the block nor the height goes into it.
  pub store_verified_header_extends :
      prev.chain_ref ≡ main_chain_id
      → main.chain_id ≡ main_chain_id
      → main.max_height ≡ prev.block_height
      → BTree.get (add32 prev.block_height 1) main.chain ≡ none
      → store_verified_header hash h prev s ≡ (
        ok tt,
        record s {
          block_headers =
              put_header hash
                (rich hash h (add32 prev.block_height 1) main_chain_id)
                s.block_headers;
          chains_index = put_chain main_chain_id (some main) s.chains_index;
          best_block = some hash;
          best_block_height = add32 prev.block_height 1;
          events = s.events ++ store_main_chain_header (add32 prev.block_height 1) hash ∷ [];
        },
      )
  unfolding store_verified_header next_blockchain extend_blockchain store_blockchain
      check_and_do_reorg
  store_verified_header_extends on_main id tip free = ground (arith, eq_refl hash)

  -- What a new fork of one block changes.
  pub record OpensFork (s' : Storage) : Type 0 where
    pub forked :
        s'.chains_index (add32 s.chain_counter 1)
        ≡ some (generate_blockchain (add32 s.chain_counter 1) (add32 prev.block_height 1) hash)
    pub counter : s'.chain_counter ≡ add32 s.chain_counter 1
    pub others : (id : ℕ) → id ≢ add32 s.chain_counter 1 → s'.chains_index id ≡ s.chains_index id
    pub headers :
        s'.block_headers
        ≡ put_header hash
            (rich hash h (add32 prev.block_height 1) (add32 s.chain_counter 1))
            s.block_headers
    pub best_block : s'.best_block ≡ s.best_block
    pub best_block_height : s'.best_block_height ≡ s.best_block_height

  -- The chain of a new fork.
  unfoldable pub new_chain : BlockChain
  new_chain = generate_blockchain (add32 s.chain_counter 1) (add32 prev.block_height 1) hash

  new_chain_id : new_chain.chain_id ≡ add32 s.chain_counter 1
  unfolding new_chain generate_blockchain
  new_chain_id = refl

  -- The storage before the new fork is listed.
  unfoldable pub unsorted : Storage
  unsorted = record s {
    chain_counter = add32 s.chain_counter 1;
    block_headers =
        put_header hash (rich hash h (add32 prev.block_height 1) (add32 s.chain_counter 1))
          s.block_headers;
    chains_index = put_chain (add32 s.chain_counter 1) (some new_chain) s.chains_index;
  }

  pub fork_run :
      (get_block_chain_from_id prev.chain_ref s).max_height ≢ prev.block_height
      → (e : List Event) × (store_verified_header hash h prev s
          ≡ (ok tt, record (insert_sorted new_chain unsorted) { events = e }))
  unfolding store_verified_header next_blockchain create_blockchain increment_chain_counter
      store_blockchain unsorted new_chain generate_blockchain
  fork_run not_tip =
      let sorted = insert_sorted new_chain unsorted in
      let stored : Event =
        (if Hash.eq (get_best_block sorted) hash
          then store_main_chain_header (add32 prev.block_height 1) hash
          else store_fork_header new_chain.chain_id (add32 prev.block_height 1) hash) in
      let is_fork : not ((get_block_chain_from_id prev.chain_ref s).max_height == prev.block_height)
          ≡ true =
        ground arith in
      (
        sorted.events ++ stored ∷ [],
        rw (is_fork, store_verified_header, next_blockchain, store_blockchain) refl,
      )

  -- A header on a block that is not at the height of its chain opens a new fork without an error: the
  -- next chain id gets a chain of this block alone, and the header is stored with that id. The best
  -- block, the best height and the other chains are as before.
  pub store_verified_header_fork :
      (get_block_chain_from_id prev.chain_ref s).max_height ≢ prev.block_height
      → ((store_verified_header hash h prev s).0 ≡ ok tt)
        × OpensFork (store_verified_header hash h prev s).1
  store_verified_header_fork not_tip =
      let (e, run) = fork_run not_tip in
      let keeps = insert_sorted_keeps new_chain unsorted in
      rw run (
        refl,
        unfold unsorted new_chain in
            record {
              forked =
                  ap (λ (t : Storage). t.chains_index (add32 s.chain_counter 1)) keeps
                  ∙ ground arith;
              counter = ap (λ (t : Storage). t.chain_counter) keeps;
              others = λ id ne. ap (λ (t : Storage). t.chains_index id) keeps ∙ ground arith;
              headers = ap (λ (t : Storage). t.block_headers) keeps;
              best_block = ap (λ (t : Storage). t.best_block) keeps;
              best_block_height = ap (λ (t : Storage). t.best_block_height) keeps;
            },
      )

-- Two headers in a row on the main chain, under the conditions of the first being stored and below
-- the height 2 ^ 32 - 1: the second is on the tip that the first has made, and is stored as a fork
-- of its own, with the first still the best block, since the height of the main chain has not
-- moved.
pub second_header_forks :
    (hash hash' : H256Le) (h h' : BlockHeader) (prev : RichBlockHeader) (s : Storage)
    → prev.chain_ref ≡ main_chain_id
    → (get_block_chain_from_id main_chain_id s).chain_id ≡ main_chain_id
    → (get_block_chain_from_id main_chain_id s).max_height ≡ prev.block_height
    → BTree.get (add32 prev.block_height 1) (get_block_chain_from_id main_chain_id s).chain ≡ none
    → prev.block_height + 1 < 2 ^ 32
    → let s₁ = (store_verified_header hash h prev s).1 in
      let tip = rich hash h (add32 prev.block_height 1) main_chain_id in
      (s₁.best_block ≡ some hash)
      × (s₁.block_headers hash ≡ some tip)
      × OpensFork hash' h' tip s₁ (store_verified_header hash' h' tip s₁).1
      × ((store_verified_header hash' h' tip s₁).1.best_block ≡ some hash)
second_header_forks hash hash' h h' prev s on_main id tip free small =
    let first = ap (λ r. r.1) (store_verified_header_extends hash h prev s on_main id tip free) in
    rw first (
      refl,
      ground (arith, eq_refl hash),
      (store_verified_header_fork hash' h' _ _ (λ same. absurd (omega (arith, same, tip)))).1,
      (store_verified_header_fork hash' h' _ _
          (λ same. absurd (omega (arith, same, tip)))).1.best_block,
    )
