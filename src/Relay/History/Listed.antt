-- ===== src/Relay/History/Listed.antt =====
-- The order of the chains in the storages that calls of the pallet in crates/btc-relay/src/lib.rs
-- reach: every chain is found by its id.
pub mod Swap
pub mod Reorg
pub mod Insert
pub mod Store
pub mod Climb
pub mod Calls
pub mod Reached
pub mod Best
pub mod Atomic
use btc_parachain.Prelude.{
  ℕ, suc, ◌≤◌, ◌<◌, ◌^◌, ◌≡◌, ◌≢◌, ◌⊎◌, refl, sym, ◌∙◌, inl, inr, Option, Option-cases, Bool-cases,
  some, none, List, [], ◌∷◌, length, get_elem?, ◌==◌, arith,
}
use btc_parachain.Containers.BTree
use btc_parachain.Containers.LinkedMap.{LinkedMap, lookup}
use btc_parachain.Containers.LinkedMap.Listing.{Holds}
use btc_parachain.Containers.LinkedMap.Stacked.{Stacked}
use btc_parachain.Bitcoin.Hash.{H256Le}
use btc_parachain.Relay.Storage.{
  Storage, BlockChain, Event, get_block_chain_from_id, put_chain, find_position,
}
use btc_parachain.Relay.Chains.{main_chain_id}
use btc_parachain.Relay.Order.Lists.{Lists}
use btc_parachain.Relay.Order.Once.{Once}

-- No block of the chain is above its height, which is a u32.
abbrev pub IsTopped : BlockChain → Type 0
IsTopped c =
    ((k : ℕ) (hash : H256Le) → BTree.get k c.chain ≡ some hash → k ≤ c.max_height)
    × (c.max_height < 2 ^ 32)

-- What the entry of a chain is like: it has its own id, or the height 0 and the id of the main chain,
-- it is listed, and no block of it is above its height.
pub record IsEntry (ids : List ℕ) (id : ℕ) (c : BlockChain) : Type 0 where
  pub own : (c.chain_id ≡ id) ⊎ ((c.chain_id ≡ main_chain_id) × (c.max_height ≡ 0))
  pub listed : Lists ids c.chain_id
  pub topped : IsTopped c

-- No id is above the counter of chains.
abbrev pub Below : List ℕ → ℕ → Type 0
Below ids counter = (k v : ℕ) → get_elem? ids k ≡ some v → v ≤ counter

abbrev pub Entries : List ℕ → (ℕ → Option BlockChain) → Type 0
Entries ids chains = (id : ℕ) (c : BlockChain) → chains id ≡ some c → IsEntry ids id c

-- `Chains` lists at most as many chains as there were calls and one more, none twice and none above
-- the counter of chains, which is no more than the calls. The list is numbered as they came in and
-- the main chain first, and all entries of `ChainsIndex` are in it.
pub record IsListed (calls : ℕ) (s : Storage) : Type 0 where
  pub ids : List ℕ
  pub holds : Holds s.chains ids
  pub stacked : Stacked s.chains
  pub main_first : get_elem? ids 0 ≡ some main_chain_id
  pub few : length ids ≤ suc calls
  pub once : Once ids
  pub below : Below ids s.chain_counter
  pub entries : Entries ids s.chains_index
  pub counted : s.chain_counter ≤ calls
  pub best : H256Le
  pub has_best : s.best_block ≡ some best

-- A chain that is read by its id, the default one for a missing id.
pub IsEntry-get :
    (calls : ℕ) (s : Storage) (k : IsListed calls s) (id : ℕ)
    → IsEntry k.ids id (get_block_chain_from_id id s)
IsEntry-get calls s k id = elim (Option-cases (s.chains_index id)) [
  | inl missing ↦ rw missing (record {
    own = inr (refl, refl);
    listed = (0, k.main_first);
    topped = (λ j hash e. absurd (ground arith), omega arith);
  })
  | inr (c, e) ↦ rw e (k.entries id c e)
]

pub IsEntry-Lists :
    (ids ids' : List ℕ) (id : ℕ) (c : BlockChain)
    → Lists ids' c.chain_id
    → IsEntry ids id c
    → IsEntry ids' id c
IsEntry-Lists ids ids' id c l e = record { own = e.own; listed = l; topped = e.topped }

pub Entries-put_chain :
    (ids : List ℕ) (id : ℕ) (c : BlockChain) (chains : ℕ → Option BlockChain)
    → IsEntry ids id c
    → Entries ids chains
    → Entries ids (put_chain id (some c) chains)
Entries-put_chain ids id c chains new old j d e = elim (Bool-cases (j == id)) [
  | inl same ↦ let at : j ≡ id = ground arith in let is : c ≡ d = ground arith in rw (at, ← is) new
  | inr other ↦ old j d (ground arith)
]

-- Other parts of the storage do not matter.
pub IsListed-along :
    (calls : ℕ) (s s' : Storage) (best : H256Le)
    → s'.chains ≡ s.chains
    → s'.chains_index ≡ s.chains_index
    → s'.chain_counter ≡ s.chain_counter
    → s'.best_block ≡ some best
    → IsListed calls s
    → IsListed calls s'
IsListed-along calls s s' best a b d c k = record {
  ids = k.ids;
  holds = rw a k.holds;
  stacked = rw a k.stacked;
  main_first = k.main_first;
  few = k.few;
  once = k.once;
  below = rw d k.below;
  entries = rw b k.entries;
  counted = rw d k.counted;
  best = best;
  has_best = c;
}

pub IsListed-more : (m n : ℕ) (s : Storage) → m ≤ n → IsListed m s → IsListed n s
IsListed-more m n s le k = record {
  ids = k.ids;
  holds = k.holds;
  stacked = k.stacked;
  main_first = k.main_first;
  few = omega (arith, le, k.few);
  once = k.once;
  below = k.below;
  entries = k.entries;
  counted = omega (arith, le, k.counted);
  best = k.best;
  has_best = k.has_best;
}

abbrev pub main_height : Storage → ℕ
main_height s = (get_block_chain_from_id main_chain_id s).max_height

-- The best height stays with the main chain, or is the height of a higher one that takes its place.
abbrev pub Moves : Storage → Storage → Type 0
Moves s t =
    ((main_height t ≡ main_height s) × (t.best_block_height ≡ s.best_block_height))
    ⊎ ((main_height s < t.best_block_height) × (main_height t ≡ t.best_block_height))

-- A chain at some position is found.
pub find_position-lookup :
    (id : ℕ) (m : LinkedMap) (p : ℕ)
    → lookup p m ≡ some id
    → (q : ℕ) × (find_position id m ≡ some q)
unfolding find_position
find_position-lookup id [] p e = absurd (ground arith)
find_position-lookup id ((k, v) ∷ m) p e = elim (Bool-cases (v == id)) [
  | inl here ↦ (k, ground arith)
  | inr later ↦ let (q, e') = find_position-lookup id m p (ground arith) in (q, ground arith)
]
