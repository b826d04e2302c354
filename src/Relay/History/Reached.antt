-- ===== src/Relay/History/Reached.antt =====
-- Every storage that calls of the pallet in crates/btc-relay/src/lib.rs reach is consistent.
use btc_parachain.Prelude.{
  ℕ, ◌≡◌, ◌⊎◌, refl, Bool-cases, inl, inr, ◌==◌, some, none, List, [], ◌∷◌, length, arith,
}
use btc_parachain.Prelude.Result.{Result-cases}
use btc_parachain.Libraries.{Libraries}
use btc_parachain.Bitcoin.Types.{BlockHeader}
use btc_parachain.Bitcoin.Hash
use btc_parachain.Bitcoin.Hash.{H256Le, eq_refl, eq_sound}
use btc_parachain.Bitcoin.Header.{header_from_bytes}
use btc_parachain.Security.{ErrorCode}
use btc_parachain.Relay.Storage.{Storage}
use btc_parachain.Relay.Flags.{flag_block_error, clear_block_error}
use btc_parachain.Relay.Headers.{verify_block_header}
use btc_parachain.Relay.Headers.Acceptance.{IsAcceptable, verify_block_header_iff}
use btc_parachain.Relay.Dispatch.{
  Origin, signed_by, unsigned, store_block_header, store_verified_header,
}
use btc_parachain.Relay.Dispatch.Payment.{validate_transaction_reads}
use btc_parachain.Relay.Dispatch.Inclusion.{verify_transaction_inclusion_reads}
use btc_parachain.Relay.History.{
  Call, start, store, verify, validate, flag, clear, run_call, run, empty, Grows, IsConsistent,
  IsFresh,
}
use btc_parachain.Relay.History.Keeps.{Extends, Extends-refl, Extends-trans, Keeps-Extends}
use btc_parachain.Relay.History.Store.{store_verified_header-Extends}
use btc_parachain.Relay.History.Begin.{initialize_run, begun-IsConsistent}
use btc_parachain.Relay.History.Reflag.{Reflags-Keeps, flag_run, clear_run}

module _ (lib : Libraries) (bytes : List ℕ) where
  -- A call of `store_block_header` changes nothing, or stores an acceptable header.
  pub store_block_header_run :
      (origin : Origin) (s : Storage)
      → ((store_block_header lib origin bytes s).1 ≡ s)
        ⊎ ((h : BlockHeader) × (a : IsAcceptable lib bytes s h) × ((store_block_header lib origin
                bytes s).1
              ≡ (store_verified_header (Hash.sha256d_le lib bytes) h a.prev s).1))
  unfolding store_block_header header_from_bytes
  store_block_header_run unsigned s = inl (ground arith)
  store_block_header_run (signed_by account) s = elim (Bool-cases (length bytes == 80)) [
    | inr wrong ↦ inl (ground arith)
    | inl wide ↦ elim (Result-cases (verify_block_header lib bytes s)) [
      | inr stop ↦ inl (ground arith)
      | inl (h, e) ↦
          let a = (verify_block_header_iff lib bytes s h).0 e in
          let found = a.follows in inr (h, a, ground (arith, found))
    ]
  ]

  store-Extends :
      (origin : Origin) (genesis : H256Le) (s : Storage)
      → IsConsistent genesis s
      → Extends genesis s (store_block_header lib origin bytes s).1
  store-Extends origin genesis s k = elim (store_block_header_run origin s) [
    | inl same ↦ rw same (Extends-refl genesis s k)
    | inr (h, a, e) ↦ rw e (
        store_verified_header-Extends genesis (Hash.sha256d_le lib bytes) h a.prev s k a.is_new
          a.follows a.has_work)
  ]

pub empty-IsFresh : IsFresh empty
empty-IsFresh = record { no_headers = λ hash. refl; no_chains = λ id. refl; no_best = refl }

module _ (lib : Libraries) where
  -- A call keeps a consistent storage so.
  pub call-Extends :
      (c : Call) (genesis : H256Le) (s : Storage)
      → IsConsistent genesis s
      → Extends genesis s (run_call lib c s)
  unfolding run_call
  call-Extends (start origin bytes height) genesis s k =
      elim (initialize_run lib bytes height s origin) [
        | inl same ↦ rw same (Extends-refl genesis s k)
        | inr (fresh, header, e) ↦ absurd (ground (arith, k.best))
      ]
  call-Extends (store origin bytes) genesis s k = store-Extends lib bytes origin genesis s k
  call-Extends (verify origin tx_id height proof confirmations insecure) genesis s k =
      rw (verify_transaction_inclusion_reads lib origin tx_id height proof confirmations insecure s)
        (Extends-refl genesis s k)
  call-Extends (validate origin raw_tx value address id) genesis s k =
      rw (validate_transaction_reads origin raw_tx value address id s) (Extends-refl genesis s k)
  call-Extends (flag hash error) genesis s k =
      Keeps-Extends genesis s _ (Reflags-Keeps genesis s _ (flag_run hash error s) k)
  call-Extends (clear hash error) genesis s k =
      Keeps-Extends genesis s _ (Reflags-Keeps genesis s _ (clear_run hash error s) k)

  pub run-Extends :
      (calls : List Call) (genesis : H256Le) (s : Storage)
      → IsConsistent genesis s
      → Extends genesis s (run lib calls s)
  unfolding run
  run-Extends [] genesis s k = Extends-refl genesis s k
  run-Extends (c ∷ calls) genesis s k =
      let one = call-Extends c genesis s k in
      Extends-trans genesis s (run_call lib c s) (run lib calls (run_call lib c s)) one
        (run-Extends calls genesis (run_call lib c s) one.consistent)

  pub flag_missing :
      (hash : H256Le) (error : ErrorCode) (s : Storage)
      → s.block_headers hash ≡ none
      → ((flag_block_error hash error s).1 ≡ s) × ((clear_block_error hash error s).1 ≡ s)
  unfolding flag_block_error clear_block_error
  flag_missing hash error s missing = (ground arith, ground arith)

  -- A call on a storage that holds nothing leaves it so, or starts the relay with its first block.
  pub IsFresh-run_call :
      (c : Call) (s : Storage)
      → IsFresh s
      → IsFresh (run_call lib c s)
        ⊎ ((genesis : H256Le) × IsConsistent genesis (run_call lib c s)
            × ((run_call lib c s).best_block ≡ some genesis))
  unfolding run_call
  IsFresh-run_call (start origin bytes height) s f =
      elim (initialize_run lib bytes height s origin) [
        | inl same ↦ inl (rw same f)
        | inr (fresh, header, e) ↦ inr (
          Hash.sha256d_le lib bytes,
          rw e (begun-IsConsistent lib bytes height s header f),
          rw e refl,
        )
      ]
  IsFresh-run_call (store origin bytes) s f = elim (store_block_header_run lib bytes origin s) [
    | inl same ↦ inl (rw same f)
    | inr (h, a, e) ↦ absurd (ground (arith, a.follows, f.no_headers h.hash_prev_block))
  ]
  IsFresh-run_call (verify origin tx_id height proof confirmations insecure) s f = inl (
      rw (verify_transaction_inclusion_reads lib origin tx_id height proof confirmations insecure s)
        f)
  IsFresh-run_call (validate origin raw_tx value address id) s f =
      inl (rw (validate_transaction_reads origin raw_tx value address id s) f)
  IsFresh-run_call (flag hash error) s f =
      inl (rw (flag_missing hash error s (f.no_headers hash)).0 f)
  IsFresh-run_call (clear hash error) s f =
      inl (rw (flag_missing hash error s (f.no_headers hash)).1 f)

  pub IsFresh-call :
      (c : Call) (s : Storage)
      → IsFresh s
      → IsFresh (run_call lib c s) ⊎ ((genesis : H256Le) × IsConsistent genesis (run_call lib c s))
  IsFresh-call c s f = elim (IsFresh-run_call c s f) [
    | inl still ↦ inl still
    | inr (genesis, k, best) ↦ inr (genesis, k)
  ]

  IsFresh-run :
      (calls : List Call) (s : Storage)
      → IsFresh s
      → IsFresh (run lib calls s) ⊎ ((genesis : H256Le) × IsConsistent genesis (run lib calls s))
  unfolding run
  IsFresh-run [] s f = inl f
  IsFresh-run (c ∷ calls) s f = elim (IsFresh-call c s f) [
    | inl still ↦ IsFresh-run calls (run_call lib c s) still
    | inr (genesis, k) ↦ inr (genesis, (run-Extends calls genesis (run_call lib c s) k).consistent)
  ]

  -- Whatever calls are made of a new relay, accepted or refused and in any order, either nothing has
  -- been stored, or the storage is consistent for some first block: every stored header has its own
  -- hash and a path of proof of work down to that block, along which the height falls by one (as u32),
  -- the blocks of all chains are stored with the heights that the chains give them, and the best block
  -- is stored with the best height.
  pub run-IsConsistent :
      (calls : List Call)
      → IsFresh (run lib calls empty)
        ⊎ ((genesis : H256Le) × IsConsistent genesis (run lib calls empty))
  run-IsConsistent calls = IsFresh-run calls empty empty-IsFresh

  -- From a consistent storage, no sequence of calls loses a stored header or changes anything of it but
  -- the id of the chain it is in, and the first block stays the same.
  pub run-Grows :
      (calls : List Call) (genesis : H256Le) (s : Storage)
      → IsConsistent genesis s
      → Grows s.block_headers (run lib calls s).block_headers
        × IsConsistent genesis (run lib calls s)
  run-Grows calls genesis s k =
      let after = run-Extends calls genesis s k in (after.grows, after.consistent)
