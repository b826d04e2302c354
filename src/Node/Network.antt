-- ===== src/Node/Network.antt =====
-- The networks that parachain/src/chain_spec.rs describes, by the people who are in them.
use Prim.Native.String.{String, ◌++◌}
use btc_parachain.Prelude.{
  ℕ, ◌+◌, ◌*◌, ◌^◌, ◌<◌, ◌≡◌, refl, some, List, [], ◌∷◌, map, length, get_elem?, arith,
}
use btc_parachain.Prelude.Result.{ok}
use btc_parachain.Node.{
  Key, Scheme, sr25519, aura, grandpa, KeyLibrary, Alternative, development, local_testnet,
  GenesisConfig, ChainSpec,
}

-- The names, and the names of the stashes of all.
abbrev with_stashes : List String → List String → List String
with_stashes [] all = map (λ name. name ++ "//stash") all
with_stashes (name ∷ names) all = name ∷ with_stashes names all

-- What a network is meant to be: its specification's name and id, who has an account and a stash, and
-- who is an authority.
pub record Network : Type 0 where
  pub name : String
  pub id : String
  pub people : List String
  pub authorities : List String

abbrev pub network_of : Alternative → Network
network_of development = record {
  name = "Development";
  id = "dev";
  people = "Alice" ∷ "Bob" ∷ [];
  authorities = "Alice" ∷ [];
}
network_of local_testnet = record {
  name = "Local Testnet";
  id = "local_testnet";
  people = "Alice" ∷ "Bob" ∷ "Charlie" ∷ "Dave" ∷ "Eve" ∷ "Ferdie" ∷ [];
  authorities = "Alice" ∷ "Bob" ∷ [];
}

abbrev pub accounts_of : Network → List String
accounts_of n = with_stashes n.people n.people

-- A seed that names a key of every scheme.
abbrev pub IsSeed : KeyLibrary → String → Type 0
IsSeed keys seed = (scheme : Scheme) → (k : Key) × (keys.from_string scheme ("//" ++ seed) ≡ some k)

abbrev pub AllSeeds : KeyLibrary → List String → Type 0
AllSeeds keys [] = Unit
AllSeeds keys (seed ∷ seeds) = IsSeed keys seed × AllSeeds keys seeds

-- Two lists of the same length whose elements belong together one by one.
abbrev pub Each : {A B : Type 0} → (A → B → Type 0) → List A → List B → Type 0
Each R [] [] = Unit
Each R [] (b ∷ bs) = ⊥
Each R (a ∷ as') [] = ⊥
Each R (a ∷ as') (b ∷ bs) = R a b × Each R as' bs

-- The public key of a seed, and the account of a seed.
abbrev pub IsKey : KeyLibrary → Scheme → String → Key → Type 0
IsKey keys scheme seed k = keys.from_string scheme ("//" ++ seed) ≡ some k

abbrev pub IsAccount : KeyLibrary → String → Key → Type 0
IsAccount keys seed id = (k : Key) × IsKey keys sr25519 seed k × (id ≡ keys.into_account k)

abbrev pub total : List (Key × ℕ) → ℕ
total [] = 0
total ((k, amount) ∷ balances) = amount + total balances

-- The sudo key is Alice's account. The accounts of the network are there in order, each with a balance
-- of 2 ^ 60, and the sum fits in a u128. The authorities have their Aura keys, and their Grandpa keys
-- of weight 1.
pub record IsFunded (keys : KeyLibrary) (n : Network) (g : GenesisConfig) : Type 0 where
  pub root : IsAccount keys "Alice" g.root_key
  pub root_endowed : get_elem? g.ids 0 ≡ some g.root_key
  pub accounts : Each (IsAccount keys) (accounts_of n) g.ids
  pub balances : Each (λ (id : Key) (b : Key × ℕ). (b.0 ≡ id) × (b.1 ≡ 2 ^ 60)) g.ids g.balances
  pub fits : total g.balances < 2 ^ 128
  pub aura_keys : Each (IsKey keys aura) n.authorities g.aura_authorities
  pub grandpa_keys :
      Each
        (λ (seed : String) (b : Key × ℕ). IsKey keys grandpa seed b.0 × (b.1 ≡ 1))
        n.authorities
        g.grandpa_authorities

-- The specification of a network has its name and its id, and makes its genesis block.
pub record IsSpecOf (keys : KeyLibrary) (n : Network) (code : List ℕ) (spec : ChainSpec)
    : Type 0 where
  pub has_name : spec.name ≡ n.name
  pub has_id : spec.id ≡ n.id
  pub config : GenesisConfig
  pub made : spec.genesis ≡ ok config
  pub has_code : config.code ≡ code
  pub funded : IsFunded keys n config

pub total-map :
    (amount : ℕ) (ids : List Key) → total (map (λ k. (k, amount)) ids) ≡ length ids * amount
total-map amount [] = omega arith
total-map amount (x ∷ ids) = grind (arith, total-map amount ids)

pub Each-length :
    {A B : Type 0} (R : A → B → Type 0) (xs : List A) (ys : List B)
    → Each R xs ys
    → length ys ≡ length xs
Each-length R [] [] e = refl
Each-length R [] (y ∷ ys) e = absurd e
Each-length R (x ∷ xs) [] e = absurd e
Each-length R (x ∷ xs) (y ∷ ys) (one, e) = omega (arith, Each-length R xs ys e)

pub Each-map :
    {A B C : Type 0} (R : A → B → Type 0) (S : A → C → Type 0) (f : B → C)
    → ((a : A) (b : B) → R a b → S a (f b))
    → (xs : List A) (ys : List B) → Each R xs ys
    → Each S xs (map f ys)
Each-map R S f step [] [] e = tt
Each-map R S f step [] (y ∷ ys) e = absurd e
Each-map R S f step (x ∷ xs) [] e = absurd e
Each-map R S f step (x ∷ xs) (y ∷ ys) (one, e) = (step x y one, Each-map R S f step xs ys e)

pub Each-pair :
    (amount : ℕ) (ids : List Key)
    → Each
        (λ (id : Key) (b : Key × ℕ). (b.0 ≡ id) × (b.1 ≡ amount))
        ids
        (map (λ k. (k, amount)) ids)
Each-pair amount [] = tt
Each-pair amount (id ∷ ids) = ((refl, refl), Each-pair amount ids)
