-- ===== src/Relay/History.antt =====
-- Sequences of calls of the pallet in crates/btc-relay/src/lib.rs, and what the storage that they
-- reach is to look like.
pub mod Stored
pub mod Keeps
pub mod Refs
pub mod Swap
pub mod Reorg
pub mod Store
pub mod Begin
pub mod Reflag
pub mod Reached
pub mod FirstBlock
pub mod Proven
pub mod Tree
pub mod Refines
pub mod Listed
use btc_parachain.Prelude.{
  ℕ, suc, ◌<◌, ◌≡◌, refl, ap, ◌∙◌, Bool, Bool-cases, inl, inr, true, false, ◌==◌, ltb,
  if◌then◌else◌, Option, none, some, List, [], ◌∷◌, arith,
}
use btc_parachain.Prelude.Int.{ℤ}
use btc_parachain.Prelude.Words.{add32}
use btc_parachain.Libraries.{Libraries}
use btc_parachain.Containers.BTree
use btc_parachain.Containers.BTree.{BTreeMap}
use btc_parachain.Bitcoin.Types.{RichBlockHeader}
use btc_parachain.Bitcoin.Hash
use btc_parachain.Bitcoin.Hash.{H256Le}
use btc_parachain.Security.{ErrorCode}
use btc_parachain.Relay.Storage.{Storage, BlockChain}
use btc_parachain.Relay.Flags.{flag_block_error, clear_block_error}
use btc_parachain.Relay.Dispatch.{
  Origin, initialize, store_block_header, verify_transaction_inclusion, validate_transaction,
}

-- The dispatchable calls, and the two that the security pallet makes.
pub data Call : Type 0 where
  start : (origin : Origin) (block_header_bytes : List ℕ) (block_height : ℕ) → Call
  store : (origin : Origin) (block_header_bytes : List ℕ) → Call
  verify :
      (origin : Origin) (tx_id : H256Le) (block_height : ℕ) (raw_merkle_proof : List ℕ)
      (confirmations : ℕ) (insecure : Bool)
      → Call
  validate :
      (origin : Origin) (raw_tx : List ℕ) (payment_value : ℤ)
      (recipient_btc_address op_return_id : List ℕ)
      → Call
  flag : (block_hash : H256Le) (error : ErrorCode) → Call
  clear : (block_hash : H256Le) (error : ErrorCode) → Call

-- The storage after a call, whether it fails or not.
unfoldable pub run_call : Libraries → Call → Storage → Storage
run_call lib (start origin bytes height) s = (initialize lib origin bytes height s).1
run_call lib (store origin bytes) s = (store_block_header lib origin bytes s).1
run_call lib (verify origin tx_id height proof confirmations insecure) s =
    (verify_transaction_inclusion lib origin tx_id height proof confirmations insecure s).1
run_call lib (validate origin raw_tx value address id) s =
    (validate_transaction origin raw_tx value address id s).1
run_call lib (flag hash error) s = (flag_block_error hash error s).1
run_call lib (clear hash error) s = (clear_block_error hash error s).1

unfoldable pub run : Libraries → List Call → Storage → Storage
run lib [] s = s
run lib (c ∷ calls) s = run lib calls (run_call lib c s)

-- The storage of a new parachain.
abbrev pub empty : Storage
empty = record {
  block_headers = λ hash. none;
  chains = [];
  chains_index = λ id. none;
  best_block = none;
  best_block_height = 0;
  chain_counter = 0;
  events = [];
}

abbrev pub Headers : Type 0
Headers = H256Le → Option RichBlockHeader

-- Every stored header is still there, as it was but for the chain that it is in.
abbrev pub Grows : Headers → Headers → Type 0
Grows f f' =
    (hash : H256Le) (r : RichBlockHeader)
    → f hash ≡ some r
    → (c : ℕ) × (f' hash ≡ some (record r { chain_ref = c }))

-- A path of previous blocks leads from the header back to the first one. Each header on it is stored,
-- and each but the first is one above its previous one (a u32 sum) and has a hash below its target.
pub data FromGenesis (genesis : H256Le) (f : Headers) : H256Le → Type 0 where
  first :
      {hash : H256Le} (r : RichBlockHeader)
      → hash ≡ genesis
      → f hash ≡ some r
      → FromGenesis genesis f hash
  follows :
      {hash : H256Le} (r prev : RichBlockHeader)
      → f hash ≡ some r
      → f r.block_header.hash_prev_block ≡ some prev
      → r.block_height ≡ add32 prev.block_height 1
      → Hash.as_u256 hash < r.block_header.target
      → FromGenesis genesis f r.block_header.hash_prev_block
      → FromGenesis genesis f hash

-- How many blocks stand above the first one.
abbrev pub depth : {genesis : H256Le} {f : Headers} {hash : H256Le} → FromGenesis genesis f hash → ℕ
depth (first r same e) = 0
depth (follows r prev e p height work path) = suc (depth path)

-- A block is stored with a height.
abbrev pub IsStored : Headers → ℕ → H256Le → Type 0
IsStored f k hash = (r : RichBlockHeader) × (f hash ≡ some r) × (r.block_height ≡ k)

-- The blocks of a chain are stored, with the heights under which the chain has them.
abbrev pub AllStored : Headers → BTreeMap H256Le → Type 0
AllStored f [] = Unit
AllStored f ((k, hash) ∷ m) = IsStored f k hash × AllStored f m

abbrev pub AllChains : Headers → (ℕ → Option BlockChain) → Type 0
AllChains f chains = (id : ℕ) (c : BlockChain) → chains id ≡ some c → AllStored f c.chain

-- Every stored header has its own hash, and a path of previous blocks down to the first one. All
-- blocks of chains are stored. The best block is stored, with the best height.
pub record IsConsistent (genesis : H256Le) (s : Storage) : Type 0 where
  pub stored_hash :
      (hash : H256Le) (r : RichBlockHeader) → s.block_headers hash ≡ some r → r.block_hash ≡ hash
  pub linked :
      (hash : H256Le) (r : RichBlockHeader)
      → s.block_headers hash ≡ some r
      → FromGenesis genesis s.block_headers hash
  pub blocks : AllChains s.block_headers s.chains_index
  pub tip : H256Le
  pub tip_header : RichBlockHeader
  pub best : s.best_block ≡ some tip
  pub tip_stored : s.block_headers tip ≡ some tip_header
  pub tip_height : tip_header.block_height ≡ s.best_block_height

-- Nothing has been stored yet.
pub record IsFresh (s : Storage) : Type 0 where
  pub no_headers : (hash : H256Le) → s.block_headers hash ≡ none
  pub no_chains : (id : ℕ) → s.chains_index id ≡ none
  pub no_best : s.best_block ≡ none

pub Grows-refl : (f : Headers) → Grows f f
Grows-refl f hash r e = (r.chain_ref, e)

pub Grows-trans : (f g h : Headers) → Grows f g → Grows g h → Grows f h
Grows-trans f g h a b hash r e = let (c, e') = a hash r e in b hash (record r { chain_ref = c }) e'

pub FromGenesis-Grows :
    (genesis : H256Le) (f f' : Headers)
    → Grows f f'
    → (hash : H256Le) → FromGenesis genesis f hash
    → FromGenesis genesis f' hash
FromGenesis-Grows genesis f f' grow hash (first r same e) =
    let (c, e') = grow hash r e in first (record r { chain_ref = c }) same e'
FromGenesis-Grows genesis f f' grow hash (follows r prev e p height work path) =
    let (c, e') = grow hash r e in
    let (d, p') = grow r.block_header.hash_prev_block prev p in
    follows (record r { chain_ref = c }) (record prev { chain_ref = d }) e' p' height work
      (FromGenesis-Grows genesis f f' grow r.block_header.hash_prev_block path)

pub IsStored-Grows :
    (f f' : Headers) → Grows f f' → (k : ℕ) (hash : H256Le) → IsStored f k hash → IsStored f' k hash
IsStored-Grows f f' grow k hash (r, e, height) =
    let (c, e') = grow hash r e in (record r { chain_ref = c }, e', height)

pub AllStored-Grows :
    (f f' : Headers) → Grows f f' → (m : BTreeMap H256Le) → AllStored f m → AllStored f' m
AllStored-Grows f f' grow [] all = tt
AllStored-Grows f f' grow ((k, hash) ∷ m) (one, all) =
    (IsStored-Grows f f' grow k hash one, AllStored-Grows f f' grow m all)
