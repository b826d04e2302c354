-- ===== src/Relay/History/Listed/Calls.antt =====
-- A call of the pallet in crates/btc-relay/src/lib.rs leaves every chain to be found by its id.
use btc_parachain.Prelude.{
  some, ℕ, zero, suc, get_elem?, ◌+◌, ◌^◌, ◌<◌, ◌≡◌, ◌⊎◌, refl, inl, inr, none, List, [], ◌∷◌,
  arith,
}
use btc_parachain.Libraries.{Libraries}
use btc_parachain.Bitcoin.Types.{BlockHeader}
use btc_parachain.Bitcoin.Hash
use btc_parachain.Bitcoin.Hash.{H256Le}
use btc_parachain.Containers.LinkedMap
use btc_parachain.Containers.LinkedMap.{lookup}
use btc_parachain.Containers.LinkedMap.Listing.{Holds}
use btc_parachain.Relay.Storage.{Storage}
use btc_parachain.Relay.Chains.{main_chain_id, generate_blockchain}
use btc_parachain.Relay.Dispatch.Payment.{validate_transaction_reads}
use btc_parachain.Relay.Dispatch.Inclusion.{verify_transaction_inclusion_reads}
use btc_parachain.Relay.Dispatch.Start
use btc_parachain.Relay.Order.Once.{Once}
use btc_parachain.Relay.History.{Call, start, store, verify, validate, flag, clear, run_call}
use btc_parachain.Relay.History.Begin.{initialize_run}
use btc_parachain.Relay.History.Reflag.{Reflags, flag_run, clear_run}
use btc_parachain.Relay.History.Reached.{store_block_header_run, flag_missing}
use btc_parachain.Relay.History.Listed.{IsListed, IsListed-more, IsEntry-get, Entries-put_chain}
use btc_parachain.Relay.History.Listed.Climb.{IsLevel}
use btc_parachain.Relay.History.Listed.Store.{store_verified_header-IsListed}

-- A height that a call gives is a u32.
abbrev pub IsTyped : Call → Type 0
IsTyped (start origin bytes height) = height < 2 ^ 32
IsTyped c = Unit

abbrev pub AllTyped : List Call → Type 0
AllTyped [] = Unit
AllTyped (c ∷ calls) = IsTyped c × AllTyped calls

-- Nothing has been stored and no chain is listed or counted.
pub record IsBlank (s : Storage) : Type 0 where
  pub no_headers : (hash : H256Le) → s.block_headers hash ≡ none
  pub no_entries : (id : ℕ) → s.chains_index id ≡ none
  pub no_chains : s.chains ≡ []
  pub uncounted : s.chain_counter ≡ 0
  pub no_height : s.best_block_height ≡ 0

-- A flag leaves the id, the blocks and the height of a chain.
Reflags-IsListed :
    (calls : ℕ) (s s' : Storage) → Reflags s s' → IsListed calls s → IsListed calls s'
Reflags-IsListed calls s s' (inl same) k = rw same k
Reflags-IsListed calls s s' (inr (id, c, same_chain, same_id, same_height, e)) k =
    let entry = IsEntry-get calls s k id in
    rw e (record {
      ids = k.ids;
      holds = k.holds;
      stacked = k.stacked;
      main_first = k.main_first;
      few = k.few;
      counted = k.counted;
      once = k.once;
      below = k.below;
      entries =
          Entries-put_chain k.ids id c s.chains_index
            (record {
              own = rw (same_id, same_height) entry.own;
              listed = rw same_id entry.listed;
              topped = rw (same_chain, same_height) entry.topped;
            })
            k.entries;
      best = k.best;
      has_best = k.has_best;
    })

module _ (lib : Libraries) where
  -- The first call that starts the relay lists the main chain alone.
  begun-IsListed :
      (bytes : List ℕ) (height : ℕ) (s : Storage) (header : BlockHeader)
      → height < 2 ^ 32
      → IsBlank s
      → IsListed 0 (Start.begun lib 0 bytes height s header)
  begun-IsListed bytes height s header small b = record {
    ids = main_chain_id ∷ [];
    holds = rw b.no_chains one;
    stacked = rw b.no_chains (unfold LinkedMap.insert in (refl, tt));
    main_first = refl;
    few = omega arith;
    counted = omega (arith, b.uncounted);
    once = only;
    below = λ j v e. rw (← only_main j v e) (omega arith);
    entries =
        Entries-put_chain (main_chain_id ∷ []) main_chain_id
          (generate_blockchain main_chain_id height (Hash.sha256d_le lib bytes)) s.chains_index
          (unfold generate_blockchain in
            record {
              own = inl refl;
              listed = (0, refl);
              topped = (λ j hash e. ground arith, small);
            })
          (λ id c e. absurd (ground (arith, b.no_entries id)));
    best = Hash.sha256d_le lib bytes;
    has_best = refl;
  }
    where
      only : Once (main_chain_id ∷ [])
      only zero zero v a c = refl
      only zero (suc k) v a c = absurd (ground arith)
      only (suc j) k v a c = absurd (ground arith)

      only_main : (j v : ℕ) → get_elem? (main_chain_id ∷ []) j ≡ some v → main_chain_id ≡ v
      only_main zero v e = ground arith
      only_main (suc j) v e = absurd (ground arith)

      one : Holds (LinkedMap.insert 0 main_chain_id []) (main_chain_id ∷ [])
      one =
          unfold LinkedMap.insert in record { distinct = (refl, tt); size = refl; entries = by_key }
        where
          by_key : (k : ℕ) → lookup k ((0, main_chain_id) ∷ []) ≡ get_elem? (main_chain_id ∷ []) k
          by_key zero = ground arith
          by_key (suc k) = ground arith

  abbrev pub Listing : ℕ → Storage → Type 0
  Listing calls s = IsBlank s ⊎ IsListed calls s

  pub call-IsListed :
      (c : Call) (calls : ℕ) (s : Storage)
      → calls + 2 < 2 ^ 32
      → IsListed calls s
      → IsListed (suc calls) (run_call lib c s)
  unfolding run_call
  call-IsListed (start origin bytes height) calls s small k =
      elim (initialize_run lib bytes height s origin) [
        | inl same ↦ rw same (IsListed-more calls (suc calls) s (omega arith) k)
        | inr (fresh, header, e) ↦ absurd (ground (arith, k.has_best))
      ]
  call-IsListed (store origin bytes) calls s small k =
      elim (store_block_header_run lib bytes origin s) [
        | inl same ↦ rw same (IsListed-more calls (suc calls) s (omega arith) k)
        | inr (h, a, e) ↦
            rw e
              (store_verified_header-IsListed calls (Hash.sha256d_le lib bytes) h a.prev s k small)
      ]
  call-IsListed (verify origin tx_id height proof confirmations insecure) calls s small k =
      rw (verify_transaction_inclusion_reads lib origin tx_id height proof confirmations insecure s)
        (IsListed-more calls (suc calls) s (omega arith) k)
  call-IsListed (validate origin raw_tx value address id) calls s small k =
      rw (validate_transaction_reads origin raw_tx value address id s)
        (IsListed-more calls (suc calls) s (omega arith) k)
  call-IsListed (flag hash error) calls s small k =
      IsListed-more calls (suc calls) _ (omega arith)
        (Reflags-IsListed calls s _ (flag_run hash error s) k)
  call-IsListed (clear hash error) calls s small k =
      IsListed-more calls (suc calls) _ (omega arith)
        (Reflags-IsListed calls s _ (clear_run hash error s) k)

  pub call-Listing :
      (c : Call) (s : Storage)
      → IsTyped c
      → IsBlank s
      → IsBlank (run_call lib c s) ⊎ (IsListed 0 (run_call lib c s) × IsLevel (run_call lib c s))
  unfolding run_call
  call-Listing (start origin bytes height) s t b = elim (initialize_run lib bytes height s origin) [
    | inl same ↦ inl (rw same b)
    | inr (fresh, header, e) ↦ inr (
      rw e (begun-IsListed bytes height s header t b),
      rw e (unfold generate_blockchain in (omega arith, omega arith)),
    )
  ]
  call-Listing (store origin bytes) s t b = elim (store_block_header_run lib bytes origin s) [
    | inl same ↦ inl (rw same b)
    | inr (h, a, e) ↦ absurd (ground (arith, a.follows, b.no_headers h.hash_prev_block))
  ]
  call-Listing (verify origin tx_id height proof confirmations insecure) s t b = inl (
      rw (verify_transaction_inclusion_reads lib origin tx_id height proof confirmations insecure s)
        b)
  call-Listing (validate origin raw_tx value address id) s t b =
      inl (rw (validate_transaction_reads origin raw_tx value address id s) b)
  call-Listing (flag hash error) s t b =
      inl (rw (flag_missing lib hash error s (b.no_headers hash)).0 b)
  call-Listing (clear hash error) s t b =
      inl (rw (flag_missing lib hash error s (b.no_headers hash)).1 b)
