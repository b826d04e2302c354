-- ===== src/Relay/History/Refines.antt =====
-- Every call of the pallet in crates/btc-relay/src/lib.rs is a step of the tree of blocks.
use btc_parachain.Prelude.{◌≡◌, ◌⊎◌, refl, ap, ◌∙◌, inl, inr, List, [], ◌∷◌, arith}
use btc_parachain.Libraries.{Libraries}
use btc_parachain.Bitcoin.Hash
use btc_parachain.Bitcoin.Hash.{H256Le}
use btc_parachain.Relay.Storage.{Storage}
use btc_parachain.Relay.Dispatch.Payment.{validate_transaction_reads}
use btc_parachain.Relay.Dispatch.Inclusion.{verify_transaction_inclusion_reads}
use btc_parachain.Relay.History.{
  Call, start, store, verify, validate, flag, clear, run_call, run, empty, IsConsistent, IsFresh,
}
use btc_parachain.Relay.History.Begin.{initialize_run}
use btc_parachain.Relay.History.Reflag.{Reflags, flag_run, clear_run}
use btc_parachain.Relay.History.Reached.{
  store_block_header_run, call-Extends, IsFresh-call, empty-IsFresh,
}
use btc_parachain.Relay.History.Tree.{
  Step, stays, roots, grows, Steps, done, next, tree_of, Same, store_verified_header_adds,
}

Same-refl : (s s' : Storage) → s' ≡ s → Same (tree_of s) (tree_of s')
Same-refl s s' e hash = ap (λ (t : Storage). tree_of t hash) e

Same-Reflags : (s s' : Storage) → Reflags s s' → Same (tree_of s) (tree_of s')
Same-Reflags s s' (inl same) hash = Same-refl s s' same hash
Same-Reflags s s' (inr (id, c, same_chain, same_id, same_height, e)) hash =
    ap (λ (t : Storage). tree_of t hash) e

-- A storage is fresh or consistent.
abbrev IsSound : Storage → Type 0
IsSound s = IsFresh s ⊎ ((genesis : H256Le) × IsConsistent genesis s)

module _ (lib : Libraries) where
  call-Step :
      (c : Call) (s : Storage) → IsSound s → Step lib (tree_of s) (tree_of (run_call lib c s))
  unfolding run_call
  call-Step (start origin bytes height) s sound = elim (initialize_run lib bytes height s origin) [
    | inl same ↦ stays (Same-refl s _ same)
    | inr (fresh, header, e) ↦ elim sound [
      | inr (genesis, k) ↦ absurd (ground (arith, k.best))
      | inl f ↦
          roots bytes (header, height) (λ hash. ground (arith, f.no_headers hash))
            (λ hash. ap (λ (t : Storage). tree_of t hash) e ∙ ground arith)
    ]
  ]
  call-Step (store origin bytes) s sound = elim (store_block_header_run lib bytes origin s) [
    | inl same ↦ stays (Same-refl s _ same)
    | inr (h, a, e) ↦ elim sound [
      | inl f ↦ absurd (ground (arith, a.follows, f.no_headers h.hash_prev_block))
      | inr (genesis, k) ↦
          elim (store_verified_header_adds genesis (Hash.sha256d_le lib bytes) h a.prev s k a.is_new
            a.follows a.has_work) [
              | inl same ↦ stays (λ hash. ap (λ (t : Storage). tree_of t hash) e ∙ same hash)
              | inr more ↦
                  grows bytes h (a.prev.block_header, a.prev.block_height) a.is_parsed
                    (ground (arith, a.is_new)) (ground (arith, a.follows)) a.has_work
                    (λ hash. ap (λ (t : Storage). tree_of t hash) e ∙ more hash)
            ]
    ]
  ]
  call-Step (verify origin tx_id height proof confirmations insecure) s sound = stays (
      Same-refl s _
        (verify_transaction_inclusion_reads lib origin tx_id height proof confirmations insecure s))
  call-Step (validate origin raw_tx value address id) s sound =
      stays (Same-refl s _ (validate_transaction_reads origin raw_tx value address id s))
  call-Step (flag hash error) s sound = stays (Same-Reflags s _ (flag_run hash error s))
  call-Step (clear hash error) s sound = stays (Same-Reflags s _ (clear_run hash error s))

  call-IsSound : (c : Call) (s : Storage) → IsSound s → IsSound (run_call lib c s)
  call-IsSound c s (inl f) = IsFresh-call lib c s f
  call-IsSound c s (inr (genesis, k)) = inr (genesis, (call-Extends lib c genesis s k).consistent)

  steps :
      (calls : List Call) (s : Storage)
      → IsSound s
      → Steps lib (tree_of s) (tree_of (run lib calls s))
  unfolding run
  steps [] s sound = done (λ hash. refl)
  steps (c ∷ calls) s sound =
      next (call-Step c s sound) (steps calls (run_call lib c s) (call-IsSound c s sound))

  -- Whatever calls are made of a new relay, accepted or refused and in any order: what it stores,
  -- without the chains, is a tree of blocks that is grown from nothing step by step. A step leaves the
  -- tree as it is; or puts a first block into an empty tree; or adds the block of a header that
  -- parses, under the hash of its bytes, which is new and below its target, on a block of the tree and
  -- with the next height (a u32 sum).
  pub run-Steps : (calls : List Call) → Steps lib (tree_of empty) (tree_of (run lib calls empty))
  run-Steps calls = steps calls empty (inl empty-IsFresh)
