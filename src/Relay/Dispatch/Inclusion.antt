-- ===== src/Relay/Dispatch/Inclusion.antt =====
-- What an accepted `verify_transaction_inclusion` of crates/btc-relay/src/lib.rs shows.
use btc_parachain.Prelude.{
  ℕ, ◌≤◌, ◌<◌, ◌≡◌, Bool, Option-cases, true, some, inl, inr, List, leb, leb→le, arith,
}
use btc_parachain.Prelude.Words.{add32}
use btc_parachain.Prelude.Result.{ok, Result-cases}
use btc_parachain.Libraries.{Libraries}
use btc_parachain.Containers.BTree
use btc_parachain.Bitcoin.Types.{RichBlockHeader}
use btc_parachain.Bitcoin.Hash
use btc_parachain.Bitcoin.Hash.{H256Le, eq_sound}
use btc_parachain.Bitcoin.Merkle.{
  MerkleProof, ProofResult, verify_proof, compute_tree_height, max_transactions_in_proof,
}
use btc_parachain.Bitcoin.Merkle.Parse.{parse_proof}
use btc_parachain.Bitcoin.Merkle.Inclusion.{Includes, Includes-along, verify_proof-Includes}
use btc_parachain.Relay.Storage.{
  Storage, get_block_chain_from_id, get_chain_id_from_position, get_block_header_from_height,
}
use btc_parachain.Relay.Chains.{main_chain_id}
use btc_parachain.Relay.Confirmations.{check_confirmations, stable_transaction_confirmations}
use btc_parachain.Relay.Dispatch.{Origin, verify_transaction_inclusion, verify_merkle_proof}

-- The main chain has a stored header at the height, and the transaction is a leaf of a merkle tree
-- with that header's root.
pub record IsIncluded (lib : Libraries) (s : Storage) (tx_id : H256Le) (block_height : ℕ)
    (raw_merkle_proof : List ℕ) : Type 0 where
  pub hash : H256Le
  pub header : RichBlockHeader
  pub proof : MerkleProof
  pub position : ℕ
  pub in_main_chain :
      BTree.get block_height (get_block_chain_from_id main_chain_id s).chain ≡ some hash
  pub is_stored : s.block_headers hash ≡ some header
  pub is_parsed : parse_proof lib raw_merkle_proof ≡ ok proof
  pub few : proof.transactions_count ≤ max_transactions_in_proof
  pub inside : position < proof.transactions_count
  pub path :
      Includes lib (compute_tree_height proof) 0 header.block_header.merkle_root position tx_id

module _ (lib : Libraries) (origin : Origin) (tx_id : H256Le) (block_height : ℕ) (raw : List ℕ)
    (confs : ℕ) (insecure : Bool) (s : Storage) where
  merkle_proof_inversion :
      (r : ProofResult)
      → verify_merkle_proof lib raw ≡ ok r
      → (p : MerkleProof) × (parse_proof lib raw ≡ ok p) × (verify_proof lib p ≡ ok r)
  unfolding verify_merkle_proof
  merkle_proof_inversion r h = elim (Result-cases (parse_proof lib raw)) [
    | inl (p, e) ↦ (p, e, ground arith)
    | inr stop ↦ absurd (ground arith)
  ]

  header_inversion :
      (header : RichBlockHeader)
      → get_block_header_from_height (get_block_chain_from_id main_chain_id s) block_height s
        ≡ ok header
      → (hash : H256Le) × (BTree.get block_height (get_block_chain_from_id main_chain_id s).chain
          ≡ some hash)
        × (s.block_headers hash ≡ some header)
  header_inversion header h =
      elim (Option-cases (BTree.get block_height (get_block_chain_from_id main_chain_id s).chain)) [
        | inl missing ↦ absurd (ground arith)
        | inr (hash, e) ↦ (hash, e, ground arith)
      ]

  module _
      (passed : (verify_transaction_inclusion lib origin tx_id block_height raw confs insecure s).0
        ≡ ok tt) where
    passed_checks :
        (leb
            (add32
              (get_block_chain_from_id (get_chain_id_from_position 1 s) s).max_height
              stable_transaction_confirmations)
            s.best_block_height
          ≡ true)
        × (check_confirmations s.best_block_height confs block_height insecure ≡ ok tt)
    unfolding verify_transaction_inclusion
    passed_checks = ground arith

    passed_proof :
        (r : ProofResult) × (header : RichBlockHeader) × (verify_merkle_proof lib raw ≡ ok r)
        × (get_block_header_from_height (get_block_chain_from_id main_chain_id s) block_height s
            ≡ ok header)
        × (Hash.eq r.transaction_hash tx_id ≡ true)
        × (Hash.eq r.extracted_root header.block_header.merkle_root ≡ true)
    unfolding verify_transaction_inclusion
    passed_proof = elim (Result-cases (verify_merkle_proof lib raw)) [
      | inr stop ↦ absurd (ground arith)
      | inl (r, e) ↦
          elim (Result-cases (
            get_block_header_from_height (get_block_chain_from_id main_chain_id s) block_height
              s)) [
                | inr stop ↦ absurd (ground arith)
                | inl (header, f) ↦ (r, header, e, f, ground arith, ground arith)
              ]
    ]

    included : IsIncluded lib s tx_id block_height raw
    included =
        let (r, header, proved, found, same_tx, same_root) = passed_proof in
        let (p, parsed, verified) = merkle_proof_inversion r proved in
        let (hash, in_chain, stored) = header_inversion header found in
        let (some_tx, few, inside, path) = verify_proof-Includes lib p r verified in
        let tx_eq : r.transaction_hash ≡ tx_id = eq_sound r.transaction_hash tx_id same_tx in
        let root_eq : r.extracted_root ≡ header.block_header.merkle_root =
          eq_sound r.extracted_root header.block_header.merkle_root same_root in
        record {
          hash = hash;
          header = header;
          proof = p;
          position = r.transaction_position;
          in_main_chain = in_chain;
          is_stored = stored;
          is_parsed = parsed;
          few = few;
          inside = inside;
          path = Includes-along root_eq tx_eq path;
        }

    -- An accepted transaction is included: the main chain has a stored header at the height, the
    -- raw proof parses, and a path of node hashes leads from that header's merkle root down to the
    -- transaction id, at a position inside the block. The height of the chain at position 1 of
    -- `Chains`, plus six as a u32 sum, is at most the best height, and the confirmations were
    -- accepted.
    pub verify_transaction_inclusion-IsIncluded :
        IsIncluded lib s tx_id block_height raw
        × (add32
              (get_block_chain_from_id (get_chain_id_from_position 1 s) s).max_height
              stable_transaction_confirmations
            ≤ s.best_block_height)
        × (check_confirmations s.best_block_height confs block_height insecure ≡ ok tt)
    verify_transaction_inclusion-IsIncluded =
        (included, leb→le _ _ passed_checks.0, passed_checks.1)

  -- The check of a transaction changes nothing in the storage, whatever it returns.
  pub verify_transaction_inclusion_reads :
      (verify_transaction_inclusion lib origin tx_id block_height raw confs insecure s).1 ≡ s
  unfolding verify_transaction_inclusion
  verify_transaction_inclusion_reads = ground arith
