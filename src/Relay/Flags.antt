-- ===== src/Relay/Flags.antt =====
-- `flag_block_error` and `clear_block_error` of crates/btc-relay/src/lib.rs, which the security
-- pallet calls.
pub mod View
use btc_parachain.Prelude.{ℕ, Bool, true, false, not, if◌then◌else◌}
use btc_parachain.Prelude.Result.{Result, ok, err}
use btc_parachain.Containers.BTree
use btc_parachain.BtcCore.{Error, unknown_errorcode}
use btc_parachain.Bitcoin.Hash.{H256Le}
use btc_parachain.Security.{ErrorCode, no_data_btc_relay, invalid_btc_relay}
use btc_parachain.Relay.Storage.{
  Storage, BlockChain, Action, Event, pure, lift, gets, modify, deposit_event, ◌>>=◌, ◌>>◌,
  get_block_header_from_hash, get_block_chain_from_id, mutate_block_chain_from_id,
}

-- The sets' `insert` and `remove` report whether they changed the set.
unfoldable pub flag : ErrorCode → ℕ → BlockChain → Result Error (Bool × BlockChain)
flag no_data_btc_relay height c =
    ok (not (BTree.contains height c.no_data), record c { no_data = BTree.add height c.no_data })
flag invalid_btc_relay height c =
    ok (not (BTree.contains height c.invalid), record c { invalid = BTree.add height c.invalid })
flag _ height c = err unknown_errorcode

unfoldable pub clear : ErrorCode → ℕ → BlockChain → Result Error (Bool × BlockChain)
clear no_data_btc_relay height c =
    ok (BTree.contains height c.no_data, record c { no_data = BTree.remove height c.no_data })
clear invalid_btc_relay height c =
    ok (BTree.contains height c.invalid, record c { invalid = BTree.remove height c.invalid })
clear _ height c = err unknown_errorcode

-- A changed chain is stored and announced.
abbrev pub store_if : Bool → ℕ → BlockChain → Event → Action Error (Unit {0})
store_if true chain_id c e = modify (mutate_block_chain_from_id chain_id c) >> deposit_event e
store_if false chain_id c e = pure tt

unfoldable pub flag_block_error : H256Le → ErrorCode → Action Error (Unit {0})
flag_block_error block_hash error = do
  block_header ← (λ s. (get_block_header_from_hash block_hash s, s))
  blockchain ← gets (get_block_chain_from_id block_header.chain_ref)
  (newly_flagged, flagged) ← lift (flag error block_header.block_height blockchain)
  store_if newly_flagged block_header.chain_ref flagged
      (Event.flag_block_error block_hash block_header.chain_ref error)

unfoldable pub clear_block_error : H256Le → ErrorCode → Action Error (Unit {0})
clear_block_error block_hash error = do
  block_header ← (λ s. (get_block_header_from_hash block_hash s, s))
  blockchain ← gets (get_block_chain_from_id block_header.chain_ref)
  (block_exists, cleared) ← lift (clear error block_header.block_height blockchain)
  store_if block_exists block_header.chain_ref cleared
      (Event.clear_block_error block_hash block_header.chain_ref error)
