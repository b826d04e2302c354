-- ===== src/Relay/Chains.antt =====
-- How crates/btc-relay/src/lib.rs makes and extends a `BlockChain`.
use btc_parachain.Prelude.{ℕ, none, some, []}
use btc_parachain.Prelude.Result.{Result, ok, err}
use btc_parachain.Containers.BTree
use btc_parachain.BtcCore.{Error, duplicate_block}
use btc_parachain.Bitcoin.Hash.{H256Le}
use btc_parachain.Relay.Storage.{BlockChain, Action, pure, ◌>>=◌, increment_chain_counter}

abbrev pub main_chain_id : ℕ
main_chain_id = 0

unfoldable pub generate_blockchain : ℕ → ℕ → H256Le → BlockChain
generate_blockchain chain_id block_height block_hash = record {
  chain_id = chain_id;
  chain = BTree.insert block_height block_hash [];
  start_height = block_height;
  max_height = block_height;
  no_data = [];
  invalid = [];
}

unfoldable pub initialize_blockchain : ℕ → H256Le → BlockChain
initialize_blockchain block_height block_hash =
    generate_blockchain main_chain_id block_height block_hash

unfoldable pub create_blockchain : {E : Type 0} → ℕ → H256Le → Action E BlockChain
create_blockchain block_height block_hash = do
  chain_id ← increment_chain_counter
  pure (generate_blockchain chain_id block_height block_hash)

-- `chain.insert` returns the old value of the key, if there was one.
unfoldable pub extend_blockchain : ℕ → H256Le → BlockChain → Result Error BlockChain
extend_blockchain block_height block_hash prev = elim (BTree.get block_height prev.chain) [
  | some old ↦ err duplicate_block
  | none ↦ ok (record prev {
    chain = BTree.insert block_height block_hash prev.chain;
    max_height = block_height;
  })
]
