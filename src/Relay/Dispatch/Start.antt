-- ===== src/Relay/Dispatch/Start.antt =====
-- `initialize` of crates/btc-relay/src/lib.rs: the first block of the relay, once.
use btc_parachain.Prelude.{ℕ, ◌≡◌, refl, some, none, List, [], ◌∷◌, ◌++◌, length, arith}
use btc_parachain.Prelude.Result.{ok, err}
use btc_parachain.Libraries.{Libraries}
use btc_parachain.BtcCore.{DispatchError, dispatch_error, already_initialized}
use btc_parachain.Bitcoin.Types.{BlockHeader}
use btc_parachain.Bitcoin.Hash
use btc_parachain.Bitcoin.Hash.{H256Le, eq_refl}
use btc_parachain.Bitcoin.Header.{header_from_bytes, parse_block_header}
use btc_parachain.Containers.BTree
use btc_parachain.Containers.LinkedMap
use btc_parachain.Containers.LinkedMap.{lookup-insert}
use btc_parachain.Relay.Storage.{
  Storage, put_header, put_chain, initialized, get_block_chain_from_id,
  get_block_header_from_height, get_chain_id_from_position,
}
use btc_parachain.Relay.Chains.{main_chain_id, initialize_blockchain, generate_blockchain}
use btc_parachain.Relay.Dispatch.{signed_by, initialize}

-- What the relay holds after its start: the block as the only one of the main chain, found by its
-- height, listed first, and best.
pub record IsStarted (lib : Libraries) (bytes : List ℕ) (height : ℕ) (s : Storage) : Type 0 where
  pub header : BlockHeader
  pub is_parsed : parse_block_header {E = DispatchError} lib bytes ≡ ok header
  pub by_height :
      get_block_header_from_height (get_block_chain_from_id main_chain_id s) height s
      ≡ ok (record {
        block_hash = Hash.sha256d_le lib bytes;
        block_header = header;
        block_height = height;
        chain_ref = main_chain_id;
      })
  pub only :
      (get_block_chain_from_id main_chain_id s).chain ≡ (height, Hash.sha256d_le lib bytes) ∷ []
  pub main_height : (get_block_chain_from_id main_chain_id s).max_height ≡ height
  pub first : get_chain_id_from_position 0 s ≡ main_chain_id
  pub best : s.best_block ≡ some (Hash.sha256d_le lib bytes)
  pub best_height : s.best_block_height ≡ height

pub refused :
    (lib : Libraries) (account : ℕ) (bytes : List ℕ) (height : ℕ) (s : Storage) (hash : H256Le)
    → s.best_block ≡ some hash
    → initialize lib (signed_by account) bytes height s
      ≡ (err (dispatch_error already_initialized), s)
unfolding initialize
refused lib account bytes height s hash h = ground arith

module _ (lib : Libraries) (account : ℕ) (bytes : List ℕ) (height : ℕ) (s : Storage) where
  abbrev pub block : H256Le
  block = Hash.sha256d_le lib bytes

  abbrev pub begun : BlockHeader → Storage
  begun header = record s {
    block_headers =
        put_header block
          (record {
            block_hash = block;
            block_header = header;
            block_height = height;
            chain_ref = main_chain_id;
          })
          s.block_headers;
    chains_index =
        put_chain main_chain_id (some (generate_blockchain main_chain_id height block))
          s.chains_index;
    chains = LinkedMap.insert 0 main_chain_id s.chains;
    best_block = some block;
    best_block_height = height;
    events = s.events ++ initialized height block ∷ [];
  }

  module _ (header : BlockHeader) (fresh : s.best_block ≡ none) (wide : length bytes ≡ 80)
      (parsed : parse_block_header {E = DispatchError} lib bytes ≡ ok header) where
    pub begins : initialize lib (signed_by account) bytes height s ≡ (ok tt, begun header)
    unfolding initialize initialize_blockchain generate_blockchain header_from_bytes
    begins = ground arith

    generated : BTree.get height (generate_blockchain main_chain_id height block).chain ≡ some block
    unfolding generate_blockchain
    generated = ground arith

    begun-IsStarted : IsStarted lib bytes height (begun header)
    begun-IsStarted = record {
      header = header;
      is_parsed = parsed;
      by_height = ground (arith, generated, eq_refl block);
      only = unfold generate_blockchain in refl;
      main_height = unfold generate_blockchain in refl;
      first = ground (arith, lookup-insert 0 0 main_chain_id s.chains);
      best = refl;
      best_height = refl;
    }

    -- On a storage without a best block, a signed call with a header of 80 bytes that parses
    -- starts the relay without an error: the block is the only one of the main chain, found by its
    -- height, listed first, and best. Any signed start after it is refused and changes nothing.
    pub initialize_once :
        let s' = (initialize lib (signed_by account) bytes height s).1 in
        ((initialize lib (signed_by account) bytes height s).0 ≡ ok tt)
        × IsStarted lib bytes height s'
        × ((again : ℕ) (bytes' : List ℕ) (height' : ℕ)
            → initialize lib (signed_by again) bytes' height' s'
              ≡ (err (dispatch_error already_initialized), s'))
    initialize_once = rw begins (
      refl,
      begun-IsStarted,
      λ again bytes' height'. refused lib again bytes' height' (begun header) block refl,
    )
