-- ===== src/Relay/Dispatch/Submission.antt =====
-- `store_block_header` of crates/btc-relay/src/lib.rs from the raw bytes on.
use btc_parachain.Prelude.{ℕ, ◌≡◌, some, none, List, [], ◌∷◌, ◌++◌, length, arith}
use btc_parachain.Prelude.Words.{add32}
use btc_parachain.Prelude.Result.{ok}
use btc_parachain.Libraries.{Libraries}
use btc_parachain.Containers.BTree
use btc_parachain.Bitcoin.Types.{BlockHeader}
use btc_parachain.Bitcoin.Hash
use btc_parachain.Bitcoin.Header.{header_from_bytes}
use btc_parachain.Relay.Storage.{
  Storage, get_block_chain_from_id, put_header, put_chain, store_main_chain_header,
}
use btc_parachain.Relay.Chains.{main_chain_id}
use btc_parachain.Relay.Headers.{verify_block_header}
use btc_parachain.Relay.Headers.Acceptance.{IsAcceptable, verify_block_header_iff}
use btc_parachain.Relay.Dispatch.{signed_by, store_block_header}
use btc_parachain.Relay.Dispatch.Extension.{rich, store_verified_header_extends}

module _ (lib : Libraries) (account : ℕ) (bytes : List ℕ) (s : Storage)
    (wide : length bytes ≡ 80) where
  module _ (h : BlockHeader) (a : IsAcceptable lib bytes s h) where
    accepted : verify_block_header lib bytes s ≡ ok h
    accepted = (verify_block_header_iff lib bytes s h).1 a

    -- A signed call with an acceptable header of 80 bytes whose previous block is the tip of the main
    -- chain, where that chain is stored under its own id and has no block at the next height (a u32
    -- sum), returns without an error: the header is stored and becomes the best block at that height,
    -- an event says so, and the main chain's entry stays as it was.
    pub store_block_header_extends :
        a.prev.chain_ref ≡ main_chain_id
        → (get_block_chain_from_id main_chain_id s).chain_id ≡ main_chain_id
        → (get_block_chain_from_id main_chain_id s).max_height ≡ a.prev.block_height
        → BTree.get (add32 a.prev.block_height 1) (get_block_chain_from_id main_chain_id s).chain
          ≡ none
        → store_block_header lib (signed_by account) bytes s ≡ (
          ok tt,
          record s {
            block_headers =
                put_header
                  (Hash.sha256d_le lib bytes)
                  (rich (Hash.sha256d_le lib bytes) h (add32 a.prev.block_height 1) main_chain_id)
                  s.block_headers;
            chains_index =
                put_chain main_chain_id
                  (some (get_block_chain_from_id main_chain_id s))
                  s.chains_index;
            best_block = some (Hash.sha256d_le lib bytes);
            best_block_height = add32 a.prev.block_height 1;
            events =
                s.events
                ++ store_main_chain_header (add32 a.prev.block_height 1) (Hash.sha256d_le lib bytes)
                  ∷ [];
          },
        )
    unfolding store_block_header header_from_bytes
    store_block_header_extends on_main id tip free = ground (
      arith,
      accepted,
      a.follows,
      store_verified_header_extends (Hash.sha256d_le lib bytes) h a.prev s on_main id tip free,
    )
