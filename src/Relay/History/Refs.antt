-- ===== src/Relay/History/Refs.antt =====
-- Moving headers to another chain keeps the storage consistent, and so does sorting a fork into
-- `Chains` (`swap_main_blockchain`, `insert_sorted` of crates/btc-relay/src/lib.rs).
use btc_parachain.Prelude.{
  ℕ, ◌≡◌, refl, ap, ◌∙◌, sym, Bool-cases, inl, inr, true, some, [], ◌∷◌, arith,
}
use btc_parachain.Containers.BTree.{BTreeMap}
use btc_parachain.Bitcoin.Hash
use btc_parachain.Bitcoin.Hash.{H256Le, eq_sound}
use btc_parachain.Bitcoin.Types.{RichBlockHeader}
use btc_parachain.Relay.Storage.{Storage, BlockChain}
use btc_parachain.Relay.Reorg.{set_chain_refs}
use btc_parachain.Relay.Reorg.Headers.{has_block, set_chain_refs_view, set_chain_refs_keeps}
use btc_parachain.Relay.Order.{insert_sorted}
use btc_parachain.Relay.Order.Keeps.{insert_sorted_keeps}
use btc_parachain.Relay.History.{
  Headers, Grows, Grows-refl, AllStored, IsConsistent, FromGenesis-Grows, IsStored-Grows,
  AllStored-Grows,
}
use btc_parachain.Relay.History.Keeps.{Keeps, IsConsistent-along}

-- Moving stored blocks to another chain keeps their headers, and those of all other blocks.
set_chain_refs-Grows :
    (m : BTreeMap H256Le) (c : ℕ) (s : Storage)
    → Grows s.block_headers (set_chain_refs m c s).block_headers
set_chain_refs-Grows m c s hash r e = elim (Bool-cases (has_block hash m)) [
  | inl moved ↦ (c, ground (arith, set_chain_refs_view m c hash s))
  | inr other ↦ (r.chain_ref, ground (arith, set_chain_refs_view m c hash s))
]

-- Headers that only move between chains.
moved-IsConsistent :
    (genesis : H256Le) (s s' : Storage)
    → Grows s.block_headers s'.block_headers
    → ((hash : H256Le) (r' : RichBlockHeader)
        → s'.block_headers hash ≡ some r'
        → (r : RichBlockHeader) × (s.block_headers hash ≡ some r) × (r'.block_hash ≡ r.block_hash))
    → s'.chains_index ≡ s.chains_index
    → s'.best_block ≡ s.best_block
    → s'.best_block_height ≡ s.best_block_height
    → IsConsistent genesis s
    → IsConsistent genesis s'
moved-IsConsistent genesis s s' grow back b c d k =
    let (r, stored, height) =
      IsStored-Grows s.block_headers s'.block_headers grow s.best_block_height k.tip
        (k.tip_header, k.tip_stored, k.tip_height) in
    record {
      stored_hash =
          λ hash r' e. let (r, e', same) = back hash r' e in same ∙ k.stored_hash hash r e';
      linked = λ hash r' e.
          let (r, e', same) = back hash r' e in
          FromGenesis-Grows genesis s.block_headers s'.block_headers grow hash (k.linked hash r e');
      blocks = rw b (λ id chain e.
          AllStored-Grows s.block_headers s'.block_headers grow chain.chain (k.blocks id chain e));
      tip = k.tip;
      tip_header = r;
      best = c ∙ k.best;
      tip_stored = stored;
      tip_height = height ∙ sym d;
    }

has_block-stored :
    (f : Headers) (hash : H256Le) (m : BTreeMap H256Le)
    → AllStored f m
    → has_block hash m ≡ true
    → (r : RichBlockHeader) × (f hash ≡ some r)
has_block-stored f hash [] all e = cc
has_block-stored f hash ((k, block) ∷ m) ((r, e', height), all) e =
    elim (Bool-cases (Hash.eq hash block)) [
      | inl same ↦ let block_eq : hash ≡ block = eq_sound hash block same in (r, rw block_eq e')
      | inr other ↦ has_block-stored f hash m all (ground arith)
    ]

pub set_chain_refs-Keeps :
    (genesis : H256Le) (m : BTreeMap H256Le) (c : ℕ) (s : Storage)
    → AllStored s.block_headers m
    → IsConsistent genesis s
    → Keeps genesis s (set_chain_refs m c s)
set_chain_refs-Keeps genesis m c s all k =
    let keeps = set_chain_refs_keeps m c s in
    record {
      consistent =
          moved-IsConsistent genesis s (set_chain_refs m c s) (set_chain_refs-Grows m c s) back
            (ap (λ (t : Storage). t.chains_index) keeps) (ap (λ (t : Storage). t.best_block) keeps)
            (ap (λ (t : Storage). t.best_block_height) keeps) k;
      grows = set_chain_refs-Grows m c s;
      within = λ hash e. elim (Bool-cases (has_block hash m)) [
        | inl moved ↦
            let (r, e') = has_block-stored s.block_headers hash m all moved in absurd (ground arith)
        | inr other ↦ ground (arith, set_chain_refs_view m c hash s)
      ];
    }
  where
    back :
        (hash : H256Le) (r' : RichBlockHeader)
        → (set_chain_refs m c s).block_headers hash ≡ some r'
        → (r : RichBlockHeader) × (s.block_headers hash ≡ some r) × (r'.block_hash ≡ r.block_hash)
    back hash r' e = elim (Bool-cases (has_block hash m)) [
      | inl moved ↦
          let (r, e') = has_block-stored s.block_headers hash m all moved in
          (r, e', ground (arith, set_chain_refs_view m c hash s))
      | inr other ↦ (r', ground (arith, set_chain_refs_view m c hash s), refl)
    ]

pub insert_sorted-Keeps :
    (genesis : H256Le) (b : BlockChain) (s : Storage)
    → IsConsistent genesis s
    → Keeps genesis s (insert_sorted b s)
insert_sorted-Keeps genesis b s k =
    let keeps = insert_sorted_keeps b s in
    record {
      consistent =
          IsConsistent-along genesis s (insert_sorted b s)
            (ap (λ (t : Storage). t.block_headers) keeps)
            (ap (λ (t : Storage). t.chains_index) keeps) (ap (λ (t : Storage). t.best_block) keeps)
            (ap (λ (t : Storage). t.best_block_height) keeps) k;
      grows = rw (ap (λ (t : Storage). t.block_headers) keeps) (Grows-refl s.block_headers);
      within = rw (ap (λ (t : Storage). t.block_headers) keeps) (λ hash e. e);
    }
