-- ===== src/Relay/History/Begin.antt =====
-- The storage with which initialize of crates/btc-relay/src/lib.rs starts a relay is consistent.
use btc_parachain.Prelude.{
  ℕ, ◌≡◌, ◌⊎◌, refl, ap, sym, ◌∙◌, Bool-cases, inl, inr, ◌==◌, Option-cases, some, none, List,
  length, arith,
}
use btc_parachain.Prelude.Result.{Result, Result-cases}
use btc_parachain.Libraries.{Libraries}
use btc_parachain.BtcCore.{DispatchError}
use btc_parachain.Bitcoin.Types.{BlockHeader, RichBlockHeader}
use btc_parachain.Bitcoin.Hash
use btc_parachain.Bitcoin.Hash.{H256Le, eq_refl, eq_sound}
use btc_parachain.Bitcoin.Header.{header_from_bytes, parse_block_header}
use btc_parachain.Relay.Storage.{Storage}
use btc_parachain.Relay.Chains.{main_chain_id, generate_blockchain}
use btc_parachain.Relay.Dispatch.{Origin, signed_by, unsigned, initialize}
use btc_parachain.Relay.Dispatch.Start
use btc_parachain.Relay.History.{first, AllStored, IsConsistent, IsFresh}
use btc_parachain.Relay.History.Stored.{AllChains-put_chain}

module _ (lib : Libraries) (bytes : List ℕ) (height : ℕ) (s : Storage) where
  -- A call of `initialize` changes nothing, or starts a relay that has no best block.
  pub initialize_run :
      (origin : Origin)
      → ((initialize lib origin bytes height s).1 ≡ s)
        ⊎ ((s.best_block ≡ none)
            × (header : BlockHeader) × ((initialize lib origin bytes height s).1
                ≡ Start.begun lib 0 bytes height s header))
  unfolding initialize header_from_bytes
  initialize_run unsigned = inl (ground arith)
  initialize_run (signed_by account) = elim (Option-cases s.best_block) [
    | inr (hash, e) ↦ inl (ground arith)
    | inl fresh ↦ elim (Bool-cases (length bytes == 80)) [
      | inr wrong ↦ inl (ground arith)
      | inl wide ↦ elim (Result-cases (parse_block_header {E = DispatchError} lib bytes)) [
        | inr stop ↦ inl (ground arith)
        | inl (header, e) ↦
            let wide' : length bytes ≡ 80 = ground arith in
            inr (
              fresh,
              header,
              ap (λ (r : Result DispatchError (Unit {0}) × Storage). r.1)
                  (Start.begins lib account bytes height s header fresh wide' e),
            )
      ]
    ]
  ]

  module _ (header : BlockHeader) (f : IsFresh s) where
    abbrev genesis : H256Le
    genesis = Hash.sha256d_le lib bytes

    abbrev begun : Storage
    begun = Start.begun lib 0 bytes height s header

    abbrev genesis_header : RichBlockHeader
    genesis_header = record {
      block_hash = genesis;
      block_header = header;
      block_height = height;
      chain_ref = main_chain_id;
    }

    genesis_stored : begun.block_headers genesis ≡ some genesis_header
    genesis_stored = rw (eq_refl genesis) refl

    only_genesis :
        (hash : H256Le) (r : RichBlockHeader)
        → begun.block_headers hash ≡ some r
        → (hash ≡ genesis) × (r.block_hash ≡ genesis)
    only_genesis hash r e = elim (Bool-cases (Hash.eq hash genesis)) [
      | inl same ↦ (eq_sound hash genesis same, ground arith)
      | inr other ↦ absurd (ground (arith, f.no_headers hash))
    ]

    pub begun-IsConsistent : IsConsistent genesis begun
    begun-IsConsistent = record {
      stored_hash = λ hash r e. let (a, b) = only_genesis hash r e in b ∙ sym a;
      linked = λ hash r e. first r (only_genesis hash r e).0 e;
      blocks =
          AllChains-put_chain begun.block_headers main_chain_id
            (generate_blockchain main_chain_id height genesis) s.chains_index one_block
            (λ id c e. absurd (ground (arith, f.no_chains id)));
      tip = genesis;
      tip_header = genesis_header;
      best = refl;
      tip_stored = genesis_stored;
      tip_height = refl;
    }
      where
        one_block :
            AllStored begun.block_headers (generate_blockchain main_chain_id height genesis).chain
        one_block = unfold generate_blockchain in ((genesis_header, genesis_stored, refl), tt)
