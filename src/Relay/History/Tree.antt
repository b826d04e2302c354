-- ===== src/Relay/History/Tree.antt =====
-- What the relay of crates/btc-relay/src/lib.rs promises, without its chains: a tree of blocks that only
-- grows, each block on a known one and with its proof of work.
use btc_parachain.Prelude.{
  ℕ, ◌<◌, ◌≡◌, ◌≢◌, ◌⊎◌, ap, ◌∙◌, inl, inr, Bool-cases, Option, Option-cases, some, none, List,
  ◌==◌, if◌then◌else◌, arith,
}
use btc_parachain.Prelude.Words.{add32}
use btc_parachain.Prelude.Result.{Result, ok}
use btc_parachain.Libraries.{Libraries}
use btc_parachain.BtcCore.{Error}
use btc_parachain.Containers.BTree
use btc_parachain.Bitcoin.Types.{BlockHeader, RichBlockHeader}
use btc_parachain.Bitcoin.Hash
use btc_parachain.Bitcoin.Hash.{H256Le, eq_refl}
use btc_parachain.Bitcoin.Header.{parse_block_header}
use btc_parachain.Relay.Storage.{Storage}
use btc_parachain.Relay.Dispatch.{store_verified_header}
use btc_parachain.Relay.Dispatch.Extension.{store_verified_header_fork}
use btc_parachain.Relay.Dispatch.Lengthen
use btc_parachain.Relay.History.{IsConsistent}
use btc_parachain.Relay.History.Keeps.{Keeps}
use btc_parachain.Relay.History.Reorg.{check_and_do_reorg-Keeps}
use btc_parachain.Relay.History.Store.{longer-AllStored, noted-Extends}

-- A block, by its header and its height; the blocks that are known, by their hashes.
abbrev pub Block : Type 0
Block = BlockHeader × ℕ

abbrev pub Tree : Type 0
Tree = H256Le → Option Block

abbrev pub block_of : Option RichBlockHeader → Option Block
block_of none = none
block_of (some r) = some (r.block_header, r.block_height)

-- The tree that a storage holds: the chains are forgotten.
abbrev pub tree_of : Storage → Tree
tree_of s hash = block_of (s.block_headers hash)

abbrev pub Same : Tree → Tree → Type 0
Same t t' = (hash : H256Le) → t' hash ≡ t hash

-- One block more.
abbrev pub With : H256Le → Block → Tree → Tree → Type 0
With hash b t t' = (hash' : H256Le) → t' hash' ≡ (if Hash.eq hash' hash then some b else t hash')

-- What one call may do to the tree. Nothing; or start it with a first block; or add the block of a
-- header that parses, under the hash of its bytes, which is new and below the target, on a block that
-- is known, and one above it (a u32 sum).
pub data Step (lib : Libraries) (t t' : Tree) : Type 0 where
  stays : Same t t' → Step lib t t'
  roots :
      (bytes : List ℕ) (b : Block)
      → ((hash : H256Le) → t hash ≡ none)
      → With (Hash.sha256d_le lib bytes) b t t'
      → Step lib t t'
  grows :
      (bytes : List ℕ) (h : BlockHeader) (prev : Block)
      → parse_block_header {E = Error} lib bytes ≡ ok h
      → t (Hash.sha256d_le lib bytes) ≡ none
      → t h.hash_prev_block ≡ some prev
      → Hash.as_u256 (Hash.sha256d_le lib bytes) < h.target
      → With (Hash.sha256d_le lib bytes) (h, add32 prev.1 1) t t'
      → Step lib t t'

-- Headers that only move between chains are the same tree.
Same-Keeps :
    (genesis : H256Le) (s s' : Storage) → Keeps genesis s s' → Same (tree_of s) (tree_of s')
Same-Keeps genesis s s' k hash = elim (Option-cases (s.block_headers hash)) [
  | inl missing ↦ ground (arith, k.within hash missing)
  | inr (r, e) ↦ let (c, e') = k.grows hash r e in ground arith
]

module _ (genesis hash : H256Le) (h : BlockHeader) (prev : RichBlockHeader) (s : Storage)
    (k : IsConsistent genesis s) (is_new : s.block_headers hash ≡ none)
    (has_prev : s.block_headers h.hash_prev_block ≡ some prev)
    (work : Hash.as_u256 hash < h.target) where
  abbrev s' : Storage
  s' = (store_verified_header hash h prev s).1

  abbrev added : Block
  added = (h, add32 prev.block_height 1)

  fork_adds :
      (Lengthen.before hash h prev s).max_height ≢ prev.block_height
      → With hash added (tree_of s) (tree_of s')
  fork_adds not_tip hash' =
      let opens = (store_verified_header_fork hash h prev s not_tip).1 in
      ap (λ f. block_of (f hash')) opens.headers ∙ ground arith

  ordered_adds : With hash added (tree_of s) (tree_of (Lengthen.ordered hash h prev s))
  ordered_adds hash' =
      let noted = noted-Extends genesis hash h prev s k is_new has_prev work in
      let keeps =
        check_and_do_reorg-Keeps genesis (Lengthen.longer hash h prev s)
          (Lengthen.noted hash h prev s)
          (longer-AllStored genesis hash h prev s k is_new has_prev work) noted.consistent in
      Same-Keeps genesis (Lengthen.noted hash h prev s) (Lengthen.ordered hash h prev s) keeps hash'
      ∙ ground arith

  -- A checked header is added to the tree, or nothing is.
  pub store_verified_header_adds :
      Same (tree_of s) (tree_of s') ⊎ With hash added (tree_of s) (tree_of s')
  store_verified_header_adds =
      elim (Bool-cases ((Lengthen.before hash h prev s).max_height == prev.block_height)) [
        | inr other ↦ inr (fork_adds (λ same. absurd (ground (arith, same))))
        | inl tip ↦ extends (ground arith)
      ]
    where
      extends :
          (Lengthen.before hash h prev s).max_height ≡ prev.block_height
          → Same (tree_of s) (tree_of s') ⊎ With hash added (tree_of s) (tree_of s')
      extends on_tip =
          elim (Option-cases
            (BTree.get (Lengthen.height hash h prev s) (Lengthen.before hash h prev s).chain)) [
              | inr (old, e) ↦ inl (λ hash'.
                  ap (λ (r : Result Error (Unit {0}) × Storage). tree_of r.1 hash')
                    (Lengthen.taken_height hash h prev s on_tip old e))
              | inl free ↦ inr (elim (Lengthen.longer_run hash h prev s on_tip free) [
                | inl e ↦ rw e ordered_adds
                | inr (inl e) ↦ rw e ordered_adds
                | inr (inr (on_main, e)) ↦ rw e ordered_adds
              ])
            ]

-- Any number of steps.
pub data Steps (lib : Libraries) : Tree → Tree → Type 0 where
  done : {t t' : Tree} → Same t t' → Steps lib t t'
  next : {t u t' : Tree} → Step lib t u → Steps lib u t' → Steps lib t t'
