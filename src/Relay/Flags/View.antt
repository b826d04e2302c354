-- ===== src/Relay/Flags/View.antt =====
-- `flag_block_error` and `clear_block_error` of crates/btc-relay/src/lib.rs, seen through the flags
-- that they leave.
use btc_parachain.Prelude.{
  ℕ, ◌≡◌, ◌≢◌, Bool, true, false, ◌&&◌, some, none, ◌==◌, if◌then◌else◌, arith,
}
use btc_parachain.Prelude.Result.{ok, err}
use btc_parachain.Containers.BTree
use btc_parachain.Containers.BTree.{contains-add, contains-remove}
use btc_parachain.BtcCore.{unknown_errorcode, block_not_found}
use btc_parachain.Bitcoin.Types.{RichBlockHeader}
use btc_parachain.Bitcoin.Hash.{H256Le}
use btc_parachain.Security.{ErrorCode, no_data_btc_relay, invalid_btc_relay}
use btc_parachain.Relay.Storage.{Storage, get_block_chain_from_id}
use btc_parachain.Relay.Flags.{flag, clear, flag_block_error, clear_block_error}

-- The two errors that a block can have.
pub data BlockError : Type 0 where
  no_data invalid : BlockError

abbrev pub code_of : BlockError → ErrorCode
code_of no_data = no_data_btc_relay
code_of invalid = invalid_btc_relay

abbrev pub same_error : BlockError → BlockError → Bool
same_error no_data no_data = true
same_error invalid invalid = true
same_error _ _ = false

-- Is this error flagged at this height of the stored chain?
abbrev pub is_flagged : BlockError → ℕ → ℕ → Storage → Bool
is_flagged no_data chain_id height s =
    BTree.contains height (get_block_chain_from_id chain_id s).no_data
is_flagged invalid chain_id height s =
    BTree.contains height (get_block_chain_from_id chain_id s).invalid

module _ (hash : H256Le) (header : RichBlockHeader) (s : Storage)
    (stored : s.block_headers hash ≡ some header) where
  -- Flagging an error of a stored block succeeds, and sets this one flag: of this error, in the chain
  -- of the block, at its height. All other flags are as before.
  pub flag_block_error_lem :
      (e other : BlockError) (chain_id height : ℕ)
      → ((flag_block_error hash (code_of e) s).0 ≡ ok tt)
        × (is_flagged other chain_id height (flag_block_error hash (code_of e) s).1 ≡ (
            if same_error other e
              && ((chain_id == header.chain_ref) && (height == header.block_height))
            then true
            else is_flagged other chain_id height s))
  unfolding flag_block_error flag
  flag_block_error_lem no_data no_data c k = ground (
    arith,
    contains-add k header.block_height (get_block_chain_from_id header.chain_ref s).no_data,
  )
  flag_block_error_lem no_data invalid c k = ground arith
  flag_block_error_lem invalid no_data c k = ground arith
  flag_block_error_lem invalid invalid c k = ground (
    arith,
    contains-add k header.block_height (get_block_chain_from_id header.chain_ref s).invalid,
  )

  -- Clearing an error of a stored block succeeds, and takes this one flag away. All other flags are
  -- as before.
  pub clear_block_error_lem :
      (e other : BlockError) (chain_id height : ℕ)
      → ((clear_block_error hash (code_of e) s).0 ≡ ok tt)
        × (is_flagged other chain_id height (clear_block_error hash (code_of e) s).1 ≡ (
            if same_error other e
              && ((chain_id == header.chain_ref) && (height == header.block_height))
            then false
            else is_flagged other chain_id height s))
  unfolding clear_block_error clear
  clear_block_error_lem no_data no_data c k = ground (
    arith,
    contains-remove k header.block_height (get_block_chain_from_id header.chain_ref s).no_data,
  )
  clear_block_error_lem no_data invalid c k = ground arith
  clear_block_error_lem invalid no_data c k = ground arith
  clear_block_error_lem invalid invalid c k = ground (
    arith,
    contains-remove k header.block_height (get_block_chain_from_id header.chain_ref s).invalid,
  )

-- A code that is no error of blocks, or a block that is not stored, is refused by both calls, and
-- nothing changes.
pub flags_refused :
    (hash : H256Le) (error : ErrorCode) (s : Storage)
    → (s.block_headers hash ≡ none
        → (flag_block_error hash error s ≡ (err block_not_found, s))
          × (clear_block_error hash error s ≡ (err block_not_found, s)))
      × ((header : RichBlockHeader)
          → s.block_headers hash ≡ some header
          → error ≢ no_data_btc_relay
          → error ≢ invalid_btc_relay
          → (flag_block_error hash error s ≡ (err unknown_errorcode, s))
            × (clear_block_error hash error s ≡ (err unknown_errorcode, s)))
unfolding flag_block_error clear_block_error flag clear
flags_refused hash error s = (λ missing. ground arith, λ header stored a b. ground arith)
