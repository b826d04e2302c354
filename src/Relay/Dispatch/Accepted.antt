-- ===== src/Relay/Dispatch/Accepted.antt =====
-- The proofs that `verify_transaction_inclusion` of crates/btc-relay/src/lib.rs is meant to accept.
use btc_parachain.Prelude.{ℕ, ◌<◌, ◌≤◌, ◌≡◌, Bool, true, some, List, leb, length, refl}
use btc_parachain.Prelude.Words.{add32}
use btc_parachain.Prelude.Result.{ok}
use btc_parachain.Libraries.{Libraries}
use btc_parachain.Containers.BTree
use btc_parachain.Bitcoin.Types.{Error, BlockHeader, RichBlockHeader}
use btc_parachain.Bitcoin.Hash.{H256Le, eq_refl}
use btc_parachain.Bitcoin.Header.{parse_block_header}
use btc_parachain.Bitcoin.Merkle.{ProofResult, max_transactions_in_proof}
use btc_parachain.Bitcoin.Bytes.Sequence.{AllGood}
use btc_parachain.Bitcoin.Merkle.Raw.{IsHash}
use btc_parachain.Bitcoin.Merkle.Block.{tx_at, hash_at, tree_at, tree_at-IsPart}
use btc_parachain.Bitcoin.Merkle.BlockProof.{IsHeight, padding_of, block_proof, tree_of-IsHonest}
use btc_parachain.Bitcoin.Merkle.Partial.{PartialTree, root_of, bits}
use btc_parachain.Bitcoin.Merkle.Honest.{raw_proof_of, IsHonest, raw_parsed, raw_verified}
use btc_parachain.Relay.Storage.{Storage, get_block_chain_from_id, get_chain_id_from_position}
use btc_parachain.Relay.Chains.{main_chain_id}
use btc_parachain.Relay.Confirmations.{check_confirmations, stable_transaction_confirmations}
use btc_parachain.Relay.Dispatch.{signed_by, verify_transaction_inclusion, verify_merkle_proof}

-- The main chain has a stored header at the height, with the merkle root, and it is deep enough: the
-- chain at position 1 is six blocks behind, and the confirmations are accepted.
pub record IsSettled (s : Storage) (block_height : ℕ) (merkle_root : H256Le) (confs : ℕ)
    (insecure : Bool) : Type 0 where
  pub hash : H256Le
  pub stored : RichBlockHeader
  pub in_main_chain :
      BTree.get block_height (get_block_chain_from_id main_chain_id s).chain ≡ some hash
  pub is_stored : s.block_headers hash ≡ some stored
  pub has_root : stored.block_header.merkle_root ≡ merkle_root
  pub no_race :
      leb
        (add32
          (get_block_chain_from_id (get_chain_id_from_position 1 s) s).max_height
          stable_transaction_confirmations)
        s.best_block_height
      ≡ true
  pub is_deep : check_confirmations s.best_block_height confs block_height insecure ≡ ok tt

module _ (lib : Libraries) (header_bytes : List ℕ) (header : BlockHeader) (count : ℕ)
    (tree : PartialTree) (padding : List Bool) (position : ℕ) (tx_id : H256Le)
    (width : length header_bytes ≡ 80)
    (parsed : parse_block_header {E = Error} lib header_bytes ≡ ok header)
    (h : IsHonest count tree padding position tx_id header) where
  abbrev result : ProofResult
  result = record {
    extracted_root = root_of lib tree;
    transaction_hash = tx_id;
    transaction_position = position;
  }

  merkle_proof_accepted :
      verify_merkle_proof lib (raw_proof_of header_bytes count tree padding) ≡ ok result
  unfolding verify_merkle_proof
  merkle_proof_accepted =
      rw
        (
          raw_parsed lib header_bytes header count tree padding position tx_id width parsed h,
          raw_verified lib header_bytes header count tree padding position tx_id width parsed h,
        )
        refl

  -- The bytes of an honest proof are accepted, and nothing changes: a header of 80 bytes that parses,
  -- a block of at least one and at most 16666 transactions, a partial tree of its form with hashes of
  -- 32 bytes and fewer than 2 ^ 16 bits, filled up to whole bytes, whose last matched transaction is
  -- the one asked for, and a settled block of the main chain with the root of the tree.
  pub verify_transaction_inclusion_accepts :
      (account block_height confs : ℕ) (insecure : Bool) (s : Storage)
      → IsSettled s block_height (root_of lib tree) confs insecure
      → verify_transaction_inclusion lib
          (signed_by account)
          tx_id
          block_height
          (raw_proof_of header_bytes count tree padding)
          confs
          insecure
          s
        ≡ (ok tt, s)
  unfolding verify_transaction_inclusion
  verify_transaction_inclusion_accepts account block_height confs insecure s b =
      rw
        (
          b.no_race,
          b.is_deep,
          merkle_proof_accepted,
          b.in_main_chain,
          b.is_stored,
          b.has_root,
          eq_refl tx_id,
          eq_refl (root_of lib tree),
        )
        refl

-- Every transaction of a block can be proved: for any transaction ids of 32 bytes, at least one and at
-- most 16666, and the position of one of them, the bytes of the proof that Bitcoin makes for it are
-- accepted, and nothing changes, where the block is settled in the main chain with the merkle root of all
-- the ids, and the header of 80 bytes parses.
pub verify_transaction_inclusion_accepts_all :
    (lib : Libraries) (txs : List H256Le) (i height : ℕ) (header_bytes : List ℕ)
    (header : BlockHeader) (account block_height confs : ℕ) (insecure : Bool) (s : Storage)
    → AllGood IsHash txs
    → i < length txs
    → length txs ≤ max_transactions_in_proof
    → IsHeight (length txs) height
    → length header_bytes ≡ 80
    → parse_block_header {E = Error} lib header_bytes ≡ ok header
    → IsSettled s block_height (hash_at lib txs height 0) confs insecure
    → verify_transaction_inclusion lib
        (signed_by account)
        (tx_at lib txs i)
        block_height
        (block_proof lib txs i height header_bytes)
        confs
        insecure
        s
      ≡ (ok tt, s)
verify_transaction_inclusion_accepts_all lib txs i height header_bytes header account block_height
      confs insecure s wide in_block few least width parsed settled =
    let tree = tree_at lib txs i height 0 in
    let part = tree_at-IsPart lib txs i wide in_block height 0 in
    let settled' : IsSettled s block_height (root_of lib tree) confs insecure =
      rw part.root settled in
    verify_transaction_inclusion_accepts lib header_bytes header (length txs) tree
      (padding_of (bits tree)) i (tx_at lib txs i) width parsed
      (tree_of-IsHonest lib txs i height header wide in_block few least) account block_height confs
      insecure s settled'
