-- ===== src/Relay/History/Proven.antt =====
-- What an accepted `verify_transaction_inclusion` of crates/btc-relay/src/lib.rs shows on a storage
-- that calls have reached.
use btc_parachain.Prelude.{ℕ, ◌+◌, ◌%◌, ◌^◌, ◌≡◌, ap, ◌∙◌, some, inl, inr, List, Bool, arith}
use btc_parachain.Prelude.Result.{ok}
use btc_parachain.Libraries.{Libraries}
use btc_parachain.Bitcoin.Types.{RichBlockHeader}
use btc_parachain.Bitcoin.Hash.{H256Le}
use btc_parachain.Relay.Storage.{Storage, get_block_chain_from_id}
use btc_parachain.Relay.Chains.{main_chain_id}
use btc_parachain.Relay.Dispatch.{Origin, verify_transaction_inclusion}
use btc_parachain.Relay.Dispatch.Inclusion.{IsIncluded, verify_transaction_inclusion-IsIncluded}
use btc_parachain.Relay.History.{
  Headers, first, follows, depth, Call, run, empty, IsFresh, FromGenesis,
}
use btc_parachain.Relay.History.Stored.{AllStored-get, AllChains-get}
use btc_parachain.Relay.History.FirstBlock.{first_block, IsBegun, calls-IsBegun}

-- The transaction is included, in a block that has the height and the hash under which it was found,
-- and that leads back to the block with which the calls started the relay: each header of the path but
-- that one has proof of work, and they are as many as the height is above the start, as u32.
pub record IsProven (lib : Libraries) (calls : List Call) (tx_id : H256Le) (block_height : ℕ)
    (raw_merkle_proof : List ℕ) : Type 0 where
  pub included : IsIncluded lib (run lib calls empty) tx_id block_height raw_merkle_proof
  pub has_height : included.header.block_height ≡ block_height
  pub has_hash : included.header.block_hash ≡ included.hash
  pub genesis : H256Le
  pub start_height : ℕ
  pub is_first : first_block lib calls empty ≡ some (genesis, start_height)
  pub has_work : FromGenesis genesis (run lib calls empty).block_headers included.hash
  pub has_depth : block_height % 2 ^ 32 ≡ (start_height + depth has_work) % 2 ^ 32

-- The height of a block is that of the first one and the number of blocks between them, as u32.
height_of :
    (genesis : H256Le) (f : Headers) (hash : H256Le) (path : FromGenesis genesis f hash)
    (r : RichBlockHeader)
    → f hash ≡ some r
    → (g : RichBlockHeader) × (f genesis ≡ some g)
      × (r.block_height % 2 ^ 32 ≡ (g.block_height + depth path) % 2 ^ 32)
height_of genesis f hash (first g same e) r e' =
    let here : f genesis ≡ some g = rw (← same) e in
    (
      g,
      here,
      let same_height : r.block_height ≡ g.block_height = ground (arith, e, e') in
          omega (arith, same_height),
    )
height_of genesis f hash (follows h prev e p up work path) r e' =
    let (g, here, above) = height_of genesis f h.block_header.hash_prev_block path prev p in
    (
      g,
      here,
      let same_height : r.block_height ≡ h.block_height = ground (arith, e, e') in
          omega (arith, same_height, up, above),
    )

module _ (lib : Libraries) (tx_id : H256Le) (block_height : ℕ) (raw : List ℕ) where
  begun-IsProven :
      (calls : List Call)
      → IsBegun lib calls empty
      → IsIncluded lib (run lib calls empty) tx_id block_height raw
      → IsProven lib calls tx_id block_height raw
  begun-IsProven calls b i =
      let s = run lib calls empty in
      let k = b.consistent in
      let (r, found, height) =
        AllStored-get s.block_headers block_height i.hash
          (get_block_chain_from_id main_chain_id s).chain
          (AllChains-get s.block_headers main_chain_id s k.blocks) i.in_main_chain in
      let header_eq : i.header ≡ r = ground (arith, found, i.is_stored) in
      let (g, stored, deep) =
        height_of b.genesis s.block_headers i.hash (k.linked i.hash i.header i.is_stored) i.header
          i.is_stored in
      let has_height : i.header.block_height ≡ block_height =
        ap (λ (h : RichBlockHeader). h.block_height) header_eq ∙ height in
      let at_start : g.block_height ≡ b.start_height =
        ground (arith, stored, b.first_stored, b.first_height) in
      record {
        included = i;
        has_height = has_height;
        has_hash = k.stored_hash i.hash i.header i.is_stored;
        genesis = b.genesis;
        start_height = b.start_height;
        is_first = b.is_first;
        has_work = k.linked i.hash i.header i.is_stored;
        has_depth = rw (← at_start, ← has_height) deep;
      }

  fresh_not_included : (s : Storage) → IsFresh s → ¬ IsIncluded lib s tx_id block_height raw
  fresh_not_included s f i = absurd (ground (arith, f.no_headers i.hash, i.is_stored))

  -- After any calls of a new relay, a transaction that is accepted is included in a block of the main
  -- chain: the block has the height that was asked for and its own hash, its merkle root is proved to
  -- be over the transaction, and a path of stored headers leads from it by previous blocks to the block
  -- with which those calls started the relay, the best block of the first storage that has one. Each
  -- header of the path but that block has a hash below its target and is one higher than the one before
  -- it (as u32), and the height asked for is the height of the start plus their number, as u32.
  pub verify_transaction_inclusion-IsProven :
      (calls : List Call) (origin : Origin) (confs : ℕ) (insecure : Bool)
      → (verify_transaction_inclusion lib origin tx_id block_height raw confs insecure
          (run lib calls empty)).0
        ≡ ok tt
      → IsProven lib calls tx_id block_height raw
  verify_transaction_inclusion-IsProven calls origin confs insecure passed =
      let (i, _, _) =
        verify_transaction_inclusion-IsIncluded lib origin tx_id block_height raw confs insecure
          (run lib calls empty) passed in
      elim (calls-IsBegun lib calls) [
        | inl fresh ↦ absurd (fresh_not_included (run lib calls empty) fresh i)
        | inr b ↦ begun-IsProven calls b i
      ]
