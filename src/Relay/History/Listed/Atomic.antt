-- ===== src/Relay/History/Listed/Atomic.antt =====
-- `store_block_header` of crates/btc-relay/src/lib.rs either stores the header or changes nothing.
use btc_parachain.Prelude.{
  ℕ, ◌+◌, ◌^◌, ◌<◌, ◌≡◌, ◌≢◌, ◌⊎◌, Bool-cases, inl, inr, ◌==◌, some, List, length, arith,
}
use btc_parachain.Prelude.Words.{add32}
use btc_parachain.Prelude.Result.{Result, Result-cases, ok}
use btc_parachain.Libraries.{Libraries}
use btc_parachain.BtcCore.{DispatchError}
use btc_parachain.Bitcoin.Types.{BlockHeader, RichBlockHeader}
use btc_parachain.Bitcoin.Hash
use btc_parachain.Bitcoin.Hash.{H256Le}
use btc_parachain.Bitcoin.Header.{header_from_bytes}
use btc_parachain.Relay.Storage.{Storage}
use btc_parachain.Relay.Headers.{verify_block_header}
use btc_parachain.Relay.Headers.Acceptance.{IsAcceptable, verify_block_header_iff}
use btc_parachain.Relay.Dispatch.{Origin, signed_by, unsigned, store_block_header}
use btc_parachain.Relay.Dispatch.Extension.{rich}
use btc_parachain.Relay.History.{Call, run, empty}
use btc_parachain.Relay.History.Listed.Calls.{AllTyped}
use btc_parachain.Relay.History.Listed.Reached.{store_block_header_accepts}

-- A call that succeeds: the header was acceptable, and is found by its hash, one above the previous
-- block.
pub record Stores (lib : Libraries) (bytes : List ℕ) (s : Storage)
    (result : Result DispatchError (Unit {0}) × Storage) : Type 0 where
  pub passed : result.0 ≡ ok tt
  pub header : BlockHeader
  pub acceptance : IsAcceptable lib bytes s header
  pub chain : ℕ
  pub found :
      result.1.block_headers (Hash.sha256d_le lib bytes)
      ≡ some (rich (Hash.sha256d_le lib bytes) header (add32 acceptance.prev.block_height 1) chain)

module _ (lib : Libraries) (bytes : List ℕ) where
  unsigned_refused :
      (s : Storage)
      → let result = store_block_header lib unsigned bytes s in (result.0 ≢ ok tt) × (result.1 ≡ s)
  unfolding store_block_header
  unsigned_refused s = (ground arith, ground arith)

  -- A signed call is refused before anything is written, or the header is acceptable.
  signed_run :
      (account : ℕ) (s : Storage)
      → let result = store_block_header lib (signed_by account) bytes s in
        ((result.0 ≢ ok tt) × (result.1 ≡ s))
        ⊎ ((length bytes ≡ 80) × (h : BlockHeader) × IsAcceptable lib bytes s h)
  unfolding store_block_header header_from_bytes
  signed_run account s = elim (Bool-cases (length bytes == 80)) [
    | inr wrong ↦ inl (ground arith, ground arith)
    | inl wide ↦ elim (Result-cases (verify_block_header lib bytes s)) [
      | inl (h, e) ↦ inr (ground arith, h, (verify_block_header_iff lib bytes s h).0 e)
      | inr (inl (e, refused)) ↦ inl (ground arith, ground arith)
      | inr (inr stop) ↦ inl (ground arith, ground arith)
    ]
  ]

  -- After any calls of a new relay, fewer than 2 ^ 32 - 2 and with u32 heights, where all stored
  -- headers are below the height 2 ^ 32 - 1: a call with any bytes from any origin either returns
  -- without an error, the header being acceptable and then found by its hash, one above its previous
  -- block, or it fails and leaves the whole storage as it was. No error or panic comes between the
  -- writes of a header.
  pub store_block_header_atomic :
      (calls : List Call)
      → AllTyped calls
      → length calls + 2 < 2 ^ 32
      → let s = run lib calls empty in
        ((hash : H256Le) (r : RichBlockHeader)
          → s.block_headers hash ≡ some r
          → r.block_height + 1 < 2 ^ 32)
        → (origin : Origin)
        → let result = store_block_header lib origin bytes s in
          Stores lib bytes s result ⊎ ((result.0 ≢ ok tt) × (result.1 ≡ s))
  store_block_header_atomic calls t small low unsigned =
      inr (unsigned_refused (run lib calls empty))
  store_block_header_atomic calls t small low (signed_by account) =
      elim (signed_run account (run lib calls empty)) [
        | inl refused ↦ inr refused
        | inr (wide, h, a) ↦
            let (passed, c, found) =
              store_block_header_accepts lib account bytes wide calls t small h a
                (low h.hash_prev_block a.prev a.follows) in
            inl (record { passed = passed; header = h; acceptance = a; chain = c; found = found })
      ]
