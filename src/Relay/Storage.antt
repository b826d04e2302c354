-- ===== src/Relay/Storage.antt =====
-- The storage and the events of crates/btc-relay/src/lib.rs, and its getters and setters. A call
-- that fails keeps what it has written, so the storage comes back beside an error too.
use btc_parachain.Prelude.{
  ℕ, Bool, true, false, Option, none, some, List, [], ◌∷◌, ◌++◌, ◌==◌, if◌then◌else◌,
}
use btc_parachain.Prelude.Words.{add32}
use btc_parachain.Prelude.Result.{Result, ok, err, panic}
use btc_parachain.Containers.BTree
use btc_parachain.Containers.BTree.{BTreeMap, BTreeSet}
use btc_parachain.Containers.LinkedMap
use btc_parachain.Containers.LinkedMap.{LinkedMap}
use btc_parachain.BtcCore.{Error, fork_id_not_found, missing_block_height, block_not_found}
use btc_parachain.Bitcoin.Types.{RichBlockHeader}
use btc_parachain.Bitcoin.Hash
use btc_parachain.Bitcoin.Hash.{H256Le}
use btc_parachain.Security.{ErrorCode}

-- `BlockChain` of crates/bitcoin/src/types.rs
pub record BlockChain : Type 0 where
  pub chain_id : ℕ
  pub chain : BTreeMap H256Le
  pub start_height : ℕ
  pub max_height : ℕ
  pub no_data : BTreeSet
  pub invalid : BTreeSet

-- `H160` is a number of 20 bytes.
pub data Event : Type 0 where
  initialized : (block_height : ℕ) (hash : H256Le) → Event
  store_main_chain_header : (block_height : ℕ) (hash : H256Le) → Event
  store_fork_header : (chain_id block_height : ℕ) (hash : H256Le) → Event
  chain_reorg : (tip : H256Le) (block_height fork_depth : ℕ) → Event
  fork_ahead_of_main_chain : (main_height fork_height fork_id : ℕ) → Event
  verify_transaction : (hash : H256Le) (height confirmations : ℕ) → Event
  validate_transaction : (hash : H256Le) (value recipient : ℕ) (id : H256Le) → Event
  flag_block_error : (hash : H256Le) (chain_id : ℕ) (error : ErrorCode) → Event
  clear_block_error : (hash : H256Le) (chain_id : ℕ) (error : ErrorCode) → Event

-- A map of the storage is a function. A missing key reads as the default value.
pub record Storage : Type 0 where
  pub block_headers : H256Le → Option RichBlockHeader
  pub chains : LinkedMap
  pub chains_index : ℕ → Option BlockChain
  pub best_block : Option H256Le
  pub best_block_height : ℕ
  pub chain_counter : ℕ
  pub events : List Event

abbrev pub default_header : RichBlockHeader
default_header = record {
  block_hash = Hash.zero;
  block_header = record {
    merkle_root = Hash.zero;
    target = 0;
    timestamp = 0;
    version = 0;
    hash_prev_block = Hash.zero;
    nonce = 0;
  };
  block_height = 0;
  chain_ref = 0;
}

abbrev pub default_chain : BlockChain
default_chain = record {
  chain_id = 0;
  chain = [];
  start_height = 0;
  max_height = 0;
  no_data = [];
  invalid = [];
}

abbrev pub or_default {ℓ} : {A : Type ℓ} → A → Option A → A
or_default d none = d
or_default d (some a) = a

abbrev pub is_some : {A : Type 0} → Option A → Bool
is_some none = false
is_some (some a) = true

abbrev pub put_header :
    H256Le → RichBlockHeader → (H256Le → Option RichBlockHeader) → H256Le → Option RichBlockHeader
put_header k v f j = if Hash.eq j k then some v else f j

abbrev pub put_chain : ℕ → Option BlockChain → (ℕ → Option BlockChain) → ℕ → Option BlockChain
put_chain k v f j = if j == k then v else f j

abbrev pub Action : Type 0 → Type 0 → Type 0
Action E A = Storage → Result E A × Storage

module _ {E A : Type 0} where
  abbrev pub pure : A → Action E A
  pure a s = (ok a, s)

  abbrev pub raise : E → Action E A
  raise e s = (err e, s)

  abbrev pub lift : Result E A → Action E A
  lift r s = (r, s)

  abbrev pub gets : (Storage → A) → Action E A
  gets f s = (ok (f s), s)

abbrev pub continue : {E A B : Type 0} → Result E A → (A → Action E B) → Action E B
continue (ok a) f s = f a s
continue (err e) f s = (err e, s)
continue panic f s = (panic, s)

infixl 5 ◌>>=◌ ◌>>◌
abbrev pub ◌>>=◌ : {E A B : Type 0} → Action E A → (A → Action E B) → Action E B
◌>>=◌ m f s = let (r, s') = m s in continue r f s'

abbrev pub ◌>>◌ : {E B : Type 0} → Action E (Unit {0}) → Action E B → Action E B
m >> k = m >>= λ _. k

abbrev pub modify : {E : Type 0} → (Storage → Storage) → Action E (Unit {0})
modify f s = (ok tt, f s)

-- `ensure!(c, e)`
abbrev pub ensure : {E : Type 0} → Bool → E → Action E (Unit {0})
ensure true e s = (ok tt, s)
ensure false e s = (err e, s)

-- `.map_err(|e| f(e))`, where `?` converts an error too.
abbrev pub convert : {E F A : Type 0} → (E → F) → Result E A → Result F A
convert f (ok a) = ok a
convert f (err e) = err (f e)
convert f panic = panic

abbrev pub with_errors : {E F A : Type 0} → (E → F) → Action E A → Action F A
with_errors f m s = let (r, s') = m s in (convert f r, s')

abbrev pub deposit_event : {E : Type 0} → Event → Action E (Unit {0})
deposit_event e = modify (λ s. record s { events = s.events ++ e ∷ [] })

abbrev pub get_chain_id_from_position : ℕ → Storage → ℕ
get_chain_id_from_position position s = LinkedMap.get position s.chains

-- The first entry with this chain id, in the order of the enumeration.
unfoldable pub find_position : ℕ → LinkedMap → Option ℕ
find_position chain_id [] = none
find_position chain_id ((k, v) ∷ m) = if v == chain_id then some k else find_position chain_id m

abbrev pub get_chain_position_from_chain_id : ℕ → Storage → Result Error ℕ
get_chain_position_from_chain_id chain_id s = elim (find_position chain_id s.chains) [
  | none ↦ err fork_id_not_found
  | some k ↦ ok k
]

abbrev pub get_block_chain_from_id : ℕ → Storage → BlockChain
get_block_chain_from_id chain_id s = or_default default_chain (s.chains_index chain_id)

abbrev pub get_best_block : Storage → H256Le
get_best_block s = or_default Hash.zero s.best_block

abbrev pub best_block_exists : Storage → Bool
best_block_exists s = is_some s.best_block

abbrev pub get_block_hash : BlockChain → ℕ → Result Error H256Le
get_block_hash blockchain block_height = elim (BTree.get block_height blockchain.chain) [
  | none ↦ err missing_block_height
  | some hash ↦ ok hash
]

abbrev pub get_block_header_from_hash : H256Le → Storage → Result Error RichBlockHeader
get_block_header_from_hash block_hash s = elim (s.block_headers block_hash) [
  | none ↦ err block_not_found
  | some header ↦ ok header
]

abbrev pub block_header_exists : H256Le → Storage → Bool
block_header_exists block_hash s = is_some (s.block_headers block_hash)

abbrev pub header_of_hash : Result Error H256Le → Storage → Result Error RichBlockHeader
header_of_hash (ok hash) s = get_block_header_from_hash hash s
header_of_hash (err e) s = err e
header_of_hash panic s = panic

abbrev pub get_block_header_from_height : BlockChain → ℕ → Storage → Result Error RichBlockHeader
get_block_header_from_height blockchain block_height s =
    header_of_hash (get_block_hash blockchain block_height) s

abbrev pub set_chain_from_position_and_id : ℕ → ℕ → Storage → Storage
set_chain_from_position_and_id position id s = record s {
  chains = LinkedMap.insert position id s.chains;
}

abbrev pub swap_chain : ℕ → ℕ → Storage → Storage
swap_chain pos_1 pos_2 s = record s { chains = LinkedMap.swap pos_1 pos_2 s.chains }

-- The element at the position is swapped with the head of the linked map, which goes.
unfoldable pub remove_blockchain_from_chain : ℕ → Action Error (Unit {0})
remove_blockchain_from_chain position s = elim (LinkedMap.head s.chains) [
  | none ↦ (err fork_id_not_found, s)
  | some head_index ↦ (
    ok tt,
    record s { chains = LinkedMap.remove head_index (LinkedMap.swap position head_index s.chains) },
  )
]

abbrev pub set_block_chain_from_id : ℕ → BlockChain → Storage → Storage
set_block_chain_from_id id chain s = record s {
  chains_index = put_chain id (some chain) s.chains_index;
}

-- `<ChainsIndex>::mutate(id, f)` reads the entry, or the default, and writes back what `f` makes of it.
abbrev pub mutate_chains_index : ℕ → (BlockChain → BlockChain) → Storage → Storage
mutate_chains_index id f s = set_block_chain_from_id id (f (get_block_chain_from_id id s)) s

abbrev pub mutate_block_chain_from_id : ℕ → BlockChain → Storage → Storage
mutate_block_chain_from_id id chain = mutate_chains_index id (λ b. chain)

abbrev pub remove_blockchain_from_chainindex : ℕ → Storage → Storage
remove_blockchain_from_chainindex id s = record s {
  chains_index = put_chain id none s.chains_index;
}

abbrev pub set_block_header_from_hash : H256Le → RichBlockHeader → Storage → Storage
set_block_header_from_hash hash header s = record s {
  block_headers = put_header hash header s.block_headers;
}

abbrev pub mutate_block_header_from_chain_id : H256Le → ℕ → Storage → Storage
mutate_block_header_from_chain_id hash chain_ref s =
    set_block_header_from_hash hash
      (record (or_default default_header (s.block_headers hash)) { chain_ref = chain_ref }) s

abbrev pub set_best_block : H256Le → Storage → Storage
set_best_block hash s = record s { best_block = some hash }

abbrev pub set_best_block_height : ℕ → Storage → Storage
set_best_block_height height s = record s { best_block_height = height }

unfoldable pub increment_chain_counter : {E : Type 0} → Action E ℕ
increment_chain_counter s =
    (ok (add32 s.chain_counter 1), record s { chain_counter = add32 s.chain_counter 1 })
