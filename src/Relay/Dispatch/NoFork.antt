-- ===== src/Relay/Dispatch/NoFork.antt =====
-- `verify_transaction_inclusion` of crates/btc-relay/src/lib.rs while there is no fork.
use btc_parachain.Prelude.{ℕ, ◌+◌, ◌^◌, ◌<◌, ◌≡◌, Bool, List, none, arith}
use btc_parachain.Prelude.Result.{err}
use btc_parachain.Libraries.{Libraries}
use btc_parachain.Containers.LinkedMap
use btc_parachain.BtcCore.{dispatch_error, ongoing_fork}
use btc_parachain.Bitcoin.Hash.{H256Le}
use btc_parachain.Relay.Storage.{Storage, get_block_chain_from_id}
use btc_parachain.Relay.Chains.{main_chain_id}
use btc_parachain.Relay.Dispatch.{signed_by, verify_transaction_inclusion}

-- Without a chain at position 1 of `Chains`, with a main chain as high as the best height, and
-- with six blocks more below 2 ^ 32, every transaction is refused because of an ongoing fork: the
-- missing position reads as the main chain.
pub verify_transaction_inclusion_no_fork :
    (lib : Libraries) (account : ℕ) (tx_id : H256Le) (block_height : ℕ) (raw_merkle_proof : List ℕ)
    (confirmations : ℕ) (insecure : Bool) (s : Storage)
    → LinkedMap.lookup 1 s.chains ≡ none
    → (get_block_chain_from_id main_chain_id s).max_height ≡ s.best_block_height
    → s.best_block_height + 6 < 2 ^ 32
    → verify_transaction_inclusion lib
        (signed_by account)
        tx_id
        block_height
        raw_merkle_proof
        confirmations
        insecure
        s
      ≡ (err (dispatch_error ongoing_fork), s)
unfolding verify_transaction_inclusion
verify_transaction_inclusion_no_fork lib account tx_id block_height raw confirmations insecure s
      alone same small =
    ground arith
