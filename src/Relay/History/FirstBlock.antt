-- ===== src/Relay/History/FirstBlock.antt =====
-- The block with which calls of the pallet in crates/btc-relay/src/lib.rs start a relay.
use btc_parachain.Prelude.{ℕ, ◌≡◌, ◌⊎◌, refl, inl, inr, Option, some, none, List, [], ◌∷◌, arith}
use btc_parachain.Libraries.{Libraries}
use btc_parachain.Bitcoin.Types.{RichBlockHeader}
use btc_parachain.Bitcoin.Hash.{H256Le}
use btc_parachain.Relay.Storage.{Storage}
use btc_parachain.Relay.History.{Call, run_call, run, empty, IsFresh, IsConsistent}
use btc_parachain.Relay.History.Reached.{IsFresh-run_call, run-Extends, empty-IsFresh}

-- The best block of a storage, and the best height.
abbrev pub best_of : Storage → Option (H256Le × ℕ)
best_of s = elim s.best_block [ none ↦ none | some hash ↦ some (hash, s.best_block_height) ]

-- The best block and the best height of the first storage along the calls that has a best block.
unfoldable pub first_block : Libraries → List Call → Storage → Option (H256Le × ℕ)
first_block lib [] s = best_of s
first_block lib (c ∷ calls) s = elim (best_of s) [
  | some block ↦ some block
  | none ↦ first_block lib calls (run_call lib c s)
]

module _ (lib : Libraries) where
  first_block_here :
      (calls : List Call) (s : Storage) (hash : H256Le)
      → s.best_block ≡ some hash
      → first_block lib calls s ≡ some (hash, s.best_block_height)
  unfolding first_block
  first_block_here [] s hash best = rw best refl
  first_block_here (c ∷ calls) s hash best = rw best refl

  first_block_later :
      (c : Call) (calls : List Call) (s : Storage)
      → s.best_block ≡ none
      → first_block lib (c ∷ calls) s ≡ first_block lib calls (run_call lib c s)
  unfolding first_block
  first_block_later c calls s best = rw best refl

  -- The storage is consistent for the first block of the calls, which is stored with its height.
  pub record IsBegun (calls : List Call) (s : Storage) : Type 0 where
    pub genesis : H256Le
    pub start_height : ℕ
    pub is_first : first_block lib calls s ≡ some (genesis, start_height)
    pub consistent : IsConsistent genesis (run lib calls s)
    pub first_header : RichBlockHeader
    pub first_stored : (run lib calls s).block_headers genesis ≡ some first_header
    pub first_height : first_header.block_height ≡ start_height

  IsBegun-here :
      (calls : List Call) (s : Storage) (genesis : H256Le)
      → IsConsistent genesis s
      → s.best_block ≡ some genesis
      → IsBegun calls s
  IsBegun-here calls s genesis k best =
      let after = run-Extends lib calls genesis s k in
      let same : k.tip ≡ genesis = ground (arith, k.best, best) in
      let stored : s.block_headers genesis ≡ some k.tip_header = rw same at k.tip_stored in
      let (c, still) = after.grows genesis k.tip_header stored in
      record {
        genesis = genesis;
        start_height = s.best_block_height;
        is_first = first_block_here calls s genesis best;
        consistent = after.consistent;
        first_header = record k.tip_header { chain_ref = c };
        first_stored = still;
        first_height = k.tip_height;
      }

  IsBegun-later :
      (c : Call) (calls : List Call) (s : Storage)
      → s.best_block ≡ none
      → IsBegun calls (run_call lib c s)
      → IsBegun (c ∷ calls) s
  unfolding run
  IsBegun-later c calls s best b = record {
    genesis = b.genesis;
    start_height = b.start_height;
    is_first = rw (first_block_later c calls s best) b.is_first;
    consistent = b.consistent;
    first_header = b.first_header;
    first_stored = b.first_stored;
    first_height = b.first_height;
  }

  run-IsBegun :
      (calls : List Call) (s : Storage) → IsFresh s → IsFresh (run lib calls s) ⊎ IsBegun calls s
  unfolding run
  run-IsBegun [] s f = inl f
  run-IsBegun (c ∷ calls) s f = elim (IsFresh-run_call lib c s f) [
    | inr (genesis, k, best) ↦
        inr
          (IsBegun-later c calls s f.no_best (IsBegun-here calls (run_call lib c s) genesis k best))
    | inl still ↦ elim (run-IsBegun calls (run_call lib c s) still) [
      | inl none_yet ↦ inl none_yet
      | inr b ↦ inr (IsBegun-later c calls s f.no_best b)
    ]
  ]

  -- The calls of a new relay store nothing, or they begin with a first block.
  pub calls-IsBegun : (calls : List Call) → IsFresh (run lib calls empty) ⊎ IsBegun calls empty
  calls-IsBegun calls = run-IsBegun calls empty empty-IsFresh
