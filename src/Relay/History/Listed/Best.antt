-- ===== src/Relay/History/Listed/Best.antt =====
-- The best height over sequences of calls of the pallet in crates/btc-relay/src/lib.rs.
use btc_parachain.Prelude.{
  ℕ, ◌+◌, ◌^◌, ◌≤◌, ◌<◌, ◌≡◌, refl, Bool-cases, inl, inr, ◌==◌, some, List, [], ◌∷◌, ◌++◌, length,
  length-append, arith,
}
use btc_parachain.Libraries.{Libraries}
use btc_parachain.Bitcoin.Types.{RichBlockHeader}
use btc_parachain.Bitcoin.Hash
use btc_parachain.Bitcoin.Hash.{H256Le}
use btc_parachain.Relay.Storage.{Storage}
use btc_parachain.Relay.Chains.{main_chain_id}
use btc_parachain.Relay.Dispatch.Payment.{validate_transaction_reads}
use btc_parachain.Relay.Dispatch.Inclusion.{verify_transaction_inclusion_reads}
use btc_parachain.Relay.History.{
  Call, start, store, verify, validate, flag, clear, run_call, run, empty,
}
use btc_parachain.Relay.History.Begin.{initialize_run}
use btc_parachain.Relay.History.Reflag.{Reflags, flag_run, clear_run}
use btc_parachain.Relay.History.Reached.{store_block_header_run, run-IsConsistent, run-Grows}
use btc_parachain.Relay.History.Listed.{IsListed, main_height}
use btc_parachain.Relay.History.Listed.Climb.{
  IsLevel, Climbs, Climbs-refl, store_verified_header-Climbs,
}
use btc_parachain.Relay.History.Listed.Calls.{IsTyped, AllTyped, IsBlank, call-Listing}
use btc_parachain.Relay.History.Listed.Reached.{run-IsListed}

-- The heights of the stored headers are above 0, and below the last u32.
abbrev pub InRange : Storage → Type 0
InRange s =
    (hash : H256Le) (r : RichBlockHeader)
    → s.block_headers hash ≡ some r
    → (1 ≤ r.block_height) × (r.block_height + 1 < 2 ^ 32)

Climbs-Reflags : (s s' : Storage) → IsLevel s → Reflags s s' → Climbs s s'
Climbs-Reflags s s' level (inl same) = rw same (Climbs-refl s level)
Climbs-Reflags s s' level (inr (id, c, same_chain, same_id, same_height, e)) =
    let main : main_height s' ≡ main_height s = rw e (elim (Bool-cases (id == main_chain_id)) [
      | inl first ↦ ground arith
      | inr other ↦ ground arith
    ]) in
    let best : s'.best_block_height ≡ s.best_block_height = rw e refl in
    (omega (arith, best), (omega (arith, level.0, main, best), omega (arith, level.1, main, best)))

module _ (lib : Libraries) where
  call-Climbs :
      (c : Call) (calls : ℕ) (s : Storage)
      → IsListed calls s
      → calls + 2 < 2 ^ 32
      → IsLevel s
      → InRange s
      → Climbs s (run_call lib c s)
  unfolding run_call
  call-Climbs (start origin bytes height) calls s k small level range =
      elim (initialize_run lib bytes height s origin) [
        | inl same ↦ rw same (Climbs-refl s level)
        | inr (fresh, header, e) ↦ absurd (ground (arith, k.has_best))
      ]
  call-Climbs (store origin bytes) calls s k small level range =
      elim (store_block_header_run lib bytes origin s) [
        | inl same ↦ rw same (Climbs-refl s level)
        | inr (h, a, e) ↦
            let (above, below) = range h.hash_prev_block a.prev a.follows in
            rw e (
              store_verified_header-Climbs calls (Hash.sha256d_le lib bytes) h a.prev s k small
                level above below)
      ]
  call-Climbs (verify origin tx_id height proof confirmations insecure) calls s k small level
        range =
      rw (verify_transaction_inclusion_reads lib origin tx_id height proof confirmations insecure s)
        (Climbs-refl s level)
  call-Climbs (validate origin raw_tx value address id) calls s k small level range =
      rw (validate_transaction_reads origin raw_tx value address id s) (Climbs-refl s level)
  call-Climbs (flag hash error) calls s k small level range =
      Climbs-Reflags s _ level (flag_run hash error s)
  call-Climbs (clear hash error) calls s k small level range =
      Climbs-Reflags s _ level (clear_run hash error s)

  run-snoc :
      (calls : List Call) (c : Call) (s : Storage)
      → run lib (calls ++ c ∷ []) s ≡ run_call lib c (run lib calls s)
  unfolding run
  run-snoc [] c s = refl
  run-snoc (d ∷ calls) c s = run-snoc calls c (run_call lib d s)

  AllTyped-snoc :
      (calls : List Call) (c : Call) → AllTyped calls → IsTyped c → AllTyped (calls ++ c ∷ [])
  AllTyped-snoc [] c t u = (u, tt)
  AllTyped-snoc (d ∷ calls) c t u = (t.0, AllTyped-snoc calls c t.1 u)

  IsBlank-Level : (s : Storage) → IsBlank s → IsLevel s
  IsBlank-Level s b =
      let main : main_height s ≡ 0 = ground (arith, b.no_entries main_chain_id) in
      (omega (arith, main), omega (arith, b.no_height))

  reached-Climbs :
      (calls : List Call) (c : Call)
      → AllTyped calls
      → IsTyped c
      → length calls + 2 < 2 ^ 32
      → let s = run lib calls empty in IsLevel s → InRange s → Climbs s (run_call lib c s)
  reached-Climbs calls c t u small level range =
      let s = run lib calls empty in
      elim (run-IsListed lib calls t (omega (arith, small))) [
        | inr k ↦ call-Climbs c (length calls) s k small level range
        | inl b ↦ elim (call-Listing lib c s u b) [
          | inl b' ↦ (omega (arith, b.no_height), IsBlank-Level (run_call lib c s) b')
          | inr (k, level') ↦ (omega (arith, b.no_height), level')
        ]
      ]

  -- Headers are in range before, where they are so after more calls.
  earlier-InRange :
      (calls more : List Call)
      → InRange (run lib more (run lib calls empty))
      → InRange (run lib calls empty)
  earlier-InRange calls more range hash r e = elim (run-IsConsistent lib calls) [
    | inl f ↦ absurd (ground (arith, f.no_headers hash))
    | inr (genesis, k) ↦
        let (c, e') = (run-Grows lib more genesis (run lib calls empty) k).0 hash r e in
        range hash (record r { chain_ref = c }) e'
  ]

  climbs :
      (more calls : List Call)
      → AllTyped calls
      → AllTyped more
      → length calls + length more + 2 < 2 ^ 32
      → IsLevel (run lib calls empty)
      → InRange (run lib more (run lib calls empty))
      → Climbs (run lib calls empty) (run lib more (run lib calls empty))
  unfolding run
  climbs [] calls t u small level range = Climbs-refl (run lib calls empty) level
  climbs (c ∷ more) calls t u small level range =
      let one =
        reached-Climbs calls c t u.0 (omega (arith, small)) level
          (earlier-InRange calls (c ∷ more) range) in
      let next = run-snoc calls c empty in
      let rest : Climbs (run_call lib c (run lib calls empty))
          (run lib more (run_call lib c (run lib calls empty))) =
        rw next at (
          climbs more (calls ++ c ∷ []) (AllTyped-snoc calls c t u.0) u.1
            (omega (arith, small, length-append calls (c ∷ []))) (rw next one.1) (rw next range)) in
      (omega (arith, one.0, rest.0), rest.1)

  -- After any calls of a new relay, more calls never lower the best height, and leave it at the
  -- height of the main chain or one above: where all the calls are fewer than 2 ^ 32 - 2 and give u32
  -- heights, and all headers that are stored at the end are above the height 0 and below 2 ^ 32 - 1.
  pub run-Climbs :
      (calls more : List Call)
      → AllTyped calls
      → AllTyped more
      → length calls + length more + 2 < 2 ^ 32
      → InRange (run lib more (run lib calls empty))
      → Climbs (run lib calls empty) (run lib more (run lib calls empty))
  unfolding run
  run-Climbs calls more t u small range =
      let start : IsLevel empty = (omega arith, omega arith) in
      let first =
        climbs calls [] tt t (omega (arith, small)) start (earlier-InRange calls more range) in
      climbs more calls t u small first.1 range
