-- ===== src/Relay/History/Listed/Reached.antt =====
-- In every storage that calls of the pallet in crates/btc-relay/src/lib.rs reach, the chains are
-- listed, and an acceptable header is stored.
use btc_parachain.Prelude.{
  ℕ, suc, ◌+◌, ◌^◌, ◌<◌, ◌≡◌, ◌⊎◌, refl, inl, inr, some, List, [], ◌∷◌, length, arith,
}
use btc_parachain.Prelude.Words.{add32}
use btc_parachain.Prelude.Result.{ok}
use btc_parachain.Libraries.{Libraries}
use btc_parachain.BtcCore.{dispatch_error}
use btc_parachain.Bitcoin.Types.{BlockHeader}
use btc_parachain.Bitcoin.Hash
use btc_parachain.Bitcoin.Hash.{H256Le}
use btc_parachain.Bitcoin.Header.{header_from_bytes}
use btc_parachain.Relay.Storage.{Storage, with_errors}
use btc_parachain.Relay.Headers.Acceptance.{IsAcceptable, verify_block_header_iff}
use btc_parachain.Relay.Dispatch.{signed_by, store_block_header, store_verified_header}
use btc_parachain.Relay.Dispatch.Extension.{rich}
use btc_parachain.Relay.History.{Call, run_call, run, empty}
use btc_parachain.Relay.History.Store.{store_verified_header_stores}
use btc_parachain.Relay.History.Reached.{run-IsConsistent}
use btc_parachain.Relay.History.Listed.{IsListed, IsListed-more}
use btc_parachain.Relay.History.Listed.Store.{store_verified_header_ok}
use btc_parachain.Relay.History.Listed.Calls.{
  AllTyped, IsBlank, Listing, call-IsListed, call-Listing,
}

module _ (lib : Libraries) where
  run-Listing :
      (calls : List Call) (before : ℕ) (s : Storage)
      → AllTyped calls
      → before + length calls + 1 < 2 ^ 32
      → Listing lib before s
      → Listing lib (before + length calls) (run lib calls s)
  unfolding run
  run-Listing [] before s t small (inl b) = inl b
  run-Listing [] before s t small (inr k) = inr (IsListed-more before _ s (omega arith) k)
  run-Listing (c ∷ calls) before s t small l =
      let count : suc before + length calls ≡ before + length (c ∷ calls) = omega arith in
      rw (← count) (run-Listing calls (suc before) (run_call lib c s) t.1 (omega arith) (one l))
    where
      one : Listing lib before s → Listing lib (suc before) (run_call lib c s)
      one (inr k) = inr (call-IsListed lib c before s (omega (arith, small)) k)
      one (inl b) = elim (call-Listing lib c s t.0 b) [
        | inl still ↦ inl still
        | inr (k, level) ↦ inr (IsListed-more 0 (suc before) (run_call lib c s) (omega arith) k)
      ]

  -- After any calls of a new relay, fewer than 2 ^ 32 - 1 and with u32 heights: either nothing has been
  -- stored and no chain is listed, or `Chains` numbers the listed chains without a gap or a repeated
  -- number, the last one at its head, with the main chain first. No chain is listed twice, and they
  -- are at most one more than the calls. No listed id is above the counter of chains, which is at most
  -- the calls. Every entry of `ChainsIndex` has its own id, or the height 0 and the id of the main
  -- chain, is listed under its id, and has no block above its height, a u32.
  pub run-IsListed :
      (calls : List Call)
      → AllTyped calls
      → length calls + 1 < 2 ^ 32
      → IsBlank (run lib calls empty) ⊎ IsListed (length calls) (run lib calls empty)
  run-IsListed calls t small =
      let none_before : 0 + length calls ≡ length calls = omega arith in
      rw (← none_before) (
        run-Listing calls 0 empty t (omega (arith, small)) (
          inl (record {
            no_headers = λ hash. refl;
            no_entries = λ id. refl;
            no_chains = refl;
            uncounted = refl;
            no_height = refl;
          })))

  module _ (account : ℕ) (bytes : List ℕ) (wide : length bytes ≡ 80) where
    abbrev hash : H256Le
    hash = Hash.sha256d_le lib bytes

    accepted_run :
        (s : Storage) (h : BlockHeader) (a : IsAcceptable lib bytes s h)
        → store_block_header lib (signed_by account) bytes s
          ≡ with_errors dispatch_error (store_verified_header hash h a.prev) s
    unfolding store_block_header header_from_bytes
    accepted_run s h a = ground (arith, (verify_block_header_iff lib bytes s h).1 a, a.follows)

    -- After any calls of a new relay, fewer than 2 ^ 32 - 2 and with u32 heights: a signed call with an
    -- acceptable header of 80 bytes whose previous block is below the height 2 ^ 32 - 1 returns without
    -- an error, and the header is found by its hash, one above the previous block.
    pub store_block_header_accepts :
        (calls : List Call)
        → AllTyped calls
        → length calls + 2 < 2 ^ 32
        → let s = run lib calls empty in
          let result = store_block_header lib (signed_by account) bytes s in
          (h : BlockHeader) (a : IsAcceptable lib bytes s h)
          → a.prev.block_height + 1 < 2 ^ 32
          → (result.0 ≡ ok tt)
            × (c : ℕ) × (result.1.block_headers hash
                ≡ some (rich hash h (add32 a.prev.block_height 1) c))
    store_block_header_accepts calls t small h a low =
        let s = run lib calls empty in
        elim (run-IsListed calls t (omega arith)) [
          | inl b ↦ absurd (ground (arith, a.follows, b.no_headers h.hash_prev_block))
          | inr k ↦ elim (run-IsConsistent lib calls) [
            | inl f ↦ absurd (ground (arith, a.follows, f.no_headers h.hash_prev_block))
            | inr (genesis, consistent) ↦
                let done =
                  store_verified_header_ok (length calls) hash h a.prev s k (omega arith) low in
                let stored =
                  store_verified_header_stores genesis hash h a.prev s consistent a.is_new a.follows
                    a.has_work done in
                rw (accepted_run s h a) (ground (arith, done), stored.0, stored.1)
          ]
        ]
