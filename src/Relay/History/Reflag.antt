-- ===== src/Relay/History/Reflag.antt =====
-- What a call of flag_block_error or clear_block_error in crates/btc-relay/src/lib.rs does to a
-- consistent storage.
use btc_parachain.Prelude.{ℕ, ◌≡◌, ◌⊎◌, refl, Bool-cases, inl, inr, Option-cases, some, arith}
use btc_parachain.Bitcoin.Types.{RichBlockHeader}
use btc_parachain.Bitcoin.Hash.{H256Le}
use btc_parachain.Security.{
  ErrorCode, no_error, no_data_btc_relay, invalid_btc_relay, oracle_offline, liquidation,
}
use btc_parachain.Containers.BTree
use btc_parachain.Relay.Storage.{Storage, BlockChain, get_block_chain_from_id, put_chain}
use btc_parachain.Relay.Flags
use btc_parachain.Relay.Flags.{flag_block_error, clear_block_error}
use btc_parachain.Relay.History.{Grows-refl, AllStored, IsConsistent}
use btc_parachain.Relay.History.Stored.{AllChains-put_chain, AllChains-get}
use btc_parachain.Relay.History.Keeps.{Keeps, Keeps-refl}

-- What flagging and clearing do: nothing, or a chain gets other flags.
abbrev pub Reflags : Storage → Storage → Type 0
Reflags s s' =
    (s' ≡ s)
    ⊎ ((id : ℕ) × (c : BlockChain) × (c.chain ≡ (get_block_chain_from_id id s).chain)
        × (c.chain_id ≡ (get_block_chain_from_id id s).chain_id)
        × (c.max_height ≡ (get_block_chain_from_id id s).max_height)
        × (s'
            ≡ record s { chains_index = put_chain id (some c) s.chains_index; events = s'.events }))

pub flag_run :
    (hash : H256Le) (error : ErrorCode) (s : Storage) → Reflags s (flag_block_error hash error s).1
unfolding flag_block_error Flags.flag
flag_run hash error s = elim (Option-cases (s.block_headers hash)) [
  | inl missing ↦ inl (ground arith)
  | inr (r, e) ↦ by_error r e error
]
  where
    by_error :
        (r : RichBlockHeader)
        → s.block_headers hash ≡ some r
        → (error : ErrorCode) → Reflags s (flag_block_error hash error s).1
    by_error r e no_data_btc_relay =
        let b = get_block_chain_from_id r.chain_ref s in
        elim (Bool-cases (BTree.contains r.block_height b.no_data)) [
          | inl old ↦ inl (ground arith)
          | inr new ↦ inr (
            r.chain_ref,
            record b { no_data = BTree.add r.block_height b.no_data },
            refl,
            refl,
            refl,
            ground arith,
          )
        ]
    by_error r e invalid_btc_relay =
        let b = get_block_chain_from_id r.chain_ref s in
        elim (Bool-cases (BTree.contains r.block_height b.invalid)) [
          | inl old ↦ inl (ground arith)
          | inr new ↦ inr (
            r.chain_ref,
            record b { invalid = BTree.add r.block_height b.invalid },
            refl,
            refl,
            refl,
            ground arith,
          )
        ]
    by_error r e no_error = inl (ground arith)
    by_error r e oracle_offline = inl (ground arith)
    by_error r e liquidation = inl (ground arith)

pub clear_run :
    (hash : H256Le) (error : ErrorCode) (s : Storage) → Reflags s (clear_block_error hash error s).1
unfolding clear_block_error Flags.clear
clear_run hash error s = elim (Option-cases (s.block_headers hash)) [
  | inl missing ↦ inl (ground arith)
  | inr (r, e) ↦ by_error r e error
]
  where
    by_error :
        (r : RichBlockHeader)
        → s.block_headers hash ≡ some r
        → (error : ErrorCode) → Reflags s (clear_block_error hash error s).1
    by_error r e no_data_btc_relay =
        let b = get_block_chain_from_id r.chain_ref s in
        elim (Bool-cases (BTree.contains r.block_height b.no_data)) [
          | inr old ↦ inl (ground arith)
          | inl new ↦ inr (
            r.chain_ref,
            record b { no_data = BTree.remove r.block_height b.no_data },
            refl,
            refl,
            refl,
            ground arith,
          )
        ]
    by_error r e invalid_btc_relay =
        let b = get_block_chain_from_id r.chain_ref s in
        elim (Bool-cases (BTree.contains r.block_height b.invalid)) [
          | inr old ↦ inl (ground arith)
          | inl new ↦ inr (
            r.chain_ref,
            record b { invalid = BTree.remove r.block_height b.invalid },
            refl,
            refl,
            refl,
            ground arith,
          )
        ]
    by_error r e no_error = inl (ground arith)
    by_error r e oracle_offline = inl (ground arith)
    by_error r e liquidation = inl (ground arith)

pub Reflags-Keeps :
    (genesis : H256Le) (s s' : Storage) → Reflags s s' → IsConsistent genesis s → Keeps genesis s s'
Reflags-Keeps genesis s s' (inl same) k = rw same (Keeps-refl genesis s k)
Reflags-Keeps genesis s s' (inr (id, c, same_chain, same_id, same_height, e)) k =
    let all : AllStored s.block_headers c.chain =
      rw same_chain (AllChains-get s.block_headers id s k.blocks) in
    rw e (record {
      consistent = record {
        stored_hash = k.stored_hash;
        linked = k.linked;
        blocks = AllChains-put_chain s.block_headers id c s.chains_index all k.blocks;
        tip = k.tip;
        tip_header = k.tip_header;
        best = k.best;
        tip_stored = k.tip_stored;
        tip_height = k.tip_height;
      };
      grows = Grows-refl s.block_headers;
      within = λ hash missing. missing;
    })
