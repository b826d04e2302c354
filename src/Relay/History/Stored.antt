-- ===== src/Relay/History/Stored.antt =====
-- The chains that crates/btc-relay/src/lib.rs makes of chains whose blocks are stored.
use btc_parachain.Prelude.{
  ℕ, ◌≡◌, Bool-cases, inl, inr, ◌==◌, Option, Option-cases, none, some, [], ◌∷◌, arith,
}
use btc_parachain.Containers.BTree
use btc_parachain.Containers.BTree.{BTreeMap}
use btc_parachain.Bitcoin.Hash.{H256Le}
use btc_parachain.Relay.Storage.{BlockChain, Storage, put_chain, get_block_chain_from_id}
use btc_parachain.Relay.History.{Headers, IsStored, AllStored, AllChains}

module _ (f : Headers) where
  pub AllStored-get :
      (k : ℕ) (hash : H256Le) (m : BTreeMap H256Le)
      → AllStored f m
      → BTree.get k m ≡ some hash
      → IsStored f k hash
  AllStored-get k hash [] all e = absurd (ground arith)
  AllStored-get k hash ((j, block) ∷ m) (one, all) e = elim (Bool-cases (k == j)) [
    | inl same ↦
        let k_eq : j ≡ k = ground arith in
        let block_eq : block ≡ hash = ground arith in rw (k_eq, block_eq) at one
    | inr other ↦ AllStored-get k hash m all (ground arith)
  ]

  pub AllStored-insert :
      (k : ℕ) (hash : H256Le) (m : BTreeMap H256Le)
      → IsStored f k hash
      → AllStored f m
      → AllStored f (BTree.insert k hash m)
  AllStored-insert k hash [] new all = (new, tt)
  AllStored-insert k hash ((j, block) ∷ m) new (one, all) =
      ground (arith, AllStored-insert k hash m new all)

  pub AllStored-keys_below :
      (key : ℕ) (m : BTreeMap H256Le) → AllStored f m → AllStored f (BTree.keys_below key m)
  AllStored-keys_below key [] all = tt
  AllStored-keys_below key ((j, block) ∷ m) (one, all) =
      ground (arith, AllStored-keys_below key m all)

  pub AllStored-keys_from :
      (key : ℕ) (m : BTreeMap H256Le) → AllStored f m → AllStored f (BTree.keys_from key m)
  AllStored-keys_from key [] all = tt
  AllStored-keys_from key ((j, block) ∷ m) (one, all) =
      ground (arith, AllStored-keys_from key m all)

  pub AllStored-append :
      (m fork : BTreeMap H256Le)
      → AllStored f m
      → AllStored f fork
      → AllStored f (BTree.append m fork)
  AllStored-append m [] all all' = all
  AllStored-append m ((k, block) ∷ fork) all (one, all') =
      AllStored-insert k block (BTree.append m fork) one (AllStored-append m fork all all')

  pub AllChains-put_chain :
      (id : ℕ) (c : BlockChain) (chains : ℕ → Option BlockChain)
      → AllStored f c.chain
      → AllChains f chains
      → AllChains f (put_chain id (some c) chains)
  AllChains-put_chain id c chains new old j d e = elim (Bool-cases (j == id)) [
    | inl same ↦ let d_eq : c ≡ d = ground arith in rw (← d_eq) new
    | inr other ↦ old j d (ground arith)
  ]

  pub AllChains-remove :
      (id : ℕ) (chains : ℕ → Option BlockChain)
      → AllChains f chains
      → AllChains f (put_chain id none chains)
  AllChains-remove id chains old j d e = old j d (ground arith)

  pub AllChains-get :
      (id : ℕ) (s : Storage)
      → AllChains f s.chains_index
      → AllStored f (get_block_chain_from_id id s).chain
  AllChains-get id s all = elim (Option-cases (s.chains_index id)) [
    | inl missing ↦ rw missing tt
    | inr (c, e) ↦ rw e (all id c e)
  ]
