-- ===== src/Relay/Dispatch/Lengthen.antt =====
-- `store_block_header` of crates/btc-relay/src/lib.rs for a verified header on the last block of a
-- chain.
use btc_parachain.Prelude.{ℕ, ◌≡◌, ◌⊎◌, Bool-cases, inl, inr, ◌==◌, some, none, arith}
use btc_parachain.Prelude.Words.{add32}
use btc_parachain.Prelude.Result.{Result-cases, ok, err}
use btc_parachain.Containers.BTree
use btc_parachain.BtcCore.{duplicate_block}
use btc_parachain.Bitcoin.Types.{BlockHeader, RichBlockHeader}
use btc_parachain.Bitcoin.Hash.{H256Le}
use btc_parachain.Relay.Storage.{
  Storage, BlockChain, get_block_chain_from_id, put_header, mutate_chains_index,
}
use btc_parachain.Relay.Chains.{main_chain_id, extend_blockchain}
use btc_parachain.Relay.Reorg.{check_and_do_reorg}
use btc_parachain.Relay.Dispatch.{store_verified_header, next_blockchain, store_blockchain}
use btc_parachain.Relay.Dispatch.Extension.{rich}

module _ (hash : H256Le) (h : BlockHeader) (prev : RichBlockHeader) (s : Storage) where
  abbrev pub height : ℕ
  height = add32 prev.block_height 1

  -- The chain of the previous block with the new one, and the storage before the forks are ordered.
  abbrev pub before : BlockChain
  before = get_block_chain_from_id prev.chain_ref s

  abbrev pub longer : BlockChain
  longer = record before { chain = BTree.insert height hash before.chain; max_height = height }

  abbrev pub noted : Storage
  noted =
      mutate_chains_index before.chain_id (λ b. b)
        (record s {
          block_headers = put_header hash (rich hash h height before.chain_id) s.block_headers;
        })

  abbrev pub ordered : Storage
  ordered = (check_and_do_reorg longer noted).1

  module _ (on_tip : before.max_height ≡ prev.block_height) where
    pub taken_height :
        (old : H256Le)
        → BTree.get height before.chain ≡ some old
        → store_verified_header hash h prev s ≡ (err duplicate_block, s)
    unfolding store_verified_header next_blockchain extend_blockchain
    taken_height old e = ground arith

    pub longer_run :
        BTree.get height before.chain ≡ none
        → let s' = (store_verified_header hash h prev s).1 in
          (s' ≡ ordered)
          ⊎ (s' ≡ record ordered { events = s'.events })
          ⊎ (before.chain_id ≡ main_chain_id)
            × (s' ≡ record ordered {
              best_block = some hash;
              best_block_height = height;
              events = s'.events;
            })
    unfolding store_verified_header next_blockchain extend_blockchain store_blockchain
    longer_run e = elim (Result-cases (check_and_do_reorg longer noted).0) [
      | inr stop ↦ inl (ground arith)
      | inl (u, done) ↦ elim (Bool-cases (before.chain_id == main_chain_id)) [
        | inl main ↦ inr (inr (ground arith, ground arith))
        | inr other ↦ inr (inl (ground arith))
      ]
    ]

    pub longer_ok :
        BTree.get height before.chain ≡ none
        → (check_and_do_reorg longer noted).0 ≡ ok tt
        → (store_verified_header hash h prev s).0 ≡ ok tt
    unfolding store_verified_header next_blockchain extend_blockchain store_blockchain
    longer_ok e done = elim (Bool-cases (before.chain_id == main_chain_id)) [
      | inl main ↦ ground arith
      | inr other ↦ ground arith
    ]
