-- ===== src/Relay/Reorg/Headers.antt =====
-- The loops of `swap_main_blockchain` that give the moved headers their new chain.
use btc_parachain.Prelude.{
  ℕ, ◌≡◌, refl, Bool, false, ◌||◌, Option, some, [], ◌∷◌, if◌then◌else◌, arith, inl, inr,
  Bool-cases,
}
use btc_parachain.Containers.BTree.{BTreeMap}
use btc_parachain.Bitcoin.Types.{RichBlockHeader}
use btc_parachain.Bitcoin.Hash
use btc_parachain.Bitcoin.Hash.{H256Le, eq_sound}
use btc_parachain.Relay.Storage.{
  Storage, or_default, default_header, mutate_block_header_from_chain_id,
}
use btc_parachain.Relay.Reorg.{set_chain_refs}

-- Is this the hash of a block of the chain?
abbrev pub has_block : H256Le → BTreeMap H256Le → Bool
has_block hash [] = false
has_block hash ((height, block) ∷ m) = Hash.eq hash block || has_block hash m

-- A header moved to a chain; a missing one becomes the default header of that chain.
abbrev pub moved_to : ℕ → Option RichBlockHeader → RichBlockHeader
moved_to chain_ref h = record (or_default default_header h) { chain_ref = chain_ref }

-- Exactly the headers of the chain's blocks are moved.
pub set_chain_refs_view :
    (m : BTreeMap H256Le) (c : ℕ) (hash : H256Le) (s : Storage)
    → (set_chain_refs m c s).block_headers hash ≡ (
        if has_block hash m then some (moved_to c (s.block_headers hash)) else s.block_headers hash)
unfolding set_chain_refs
set_chain_refs_view [] c hash s = refl
set_chain_refs_view ((height, block) ∷ m) c hash s = elim (Bool-cases (Hash.eq hash block)) [
  | inl same ↦
      let e : hash ≡ block = eq_sound hash block same in
      ground (arith, set_chain_refs_view m c hash (mutate_block_header_from_chain_id block c s), e)
  | inr other ↦
      ground (arith, set_chain_refs_view m c hash (mutate_block_header_from_chain_id block c s))
]

abbrev pub with_headers : (H256Le → Option RichBlockHeader) → Storage → Storage
with_headers f s = record s { block_headers = f }

pub set_chain_refs_keeps :
    (m : BTreeMap H256Le) (c : ℕ) (s : Storage)
    → set_chain_refs m c s ≡ with_headers (set_chain_refs m c s).block_headers s
unfolding set_chain_refs
set_chain_refs_keeps [] c s = refl
set_chain_refs_keeps ((height, block) ∷ m) c s =
    set_chain_refs_keeps m c (mutate_block_header_from_chain_id block c s)
