-- ===== src/Node.antt =====
-- The chain specification of the node: parachain/src/chain_spec.rs, and `load_spec` of
-- parachain/src/cli.rs.
pub mod Network
pub mod Genesis
use Prim.Native.String.{String, ◌++◌}
use text.Mathlib.Text.{◌==◌}
use btc_parachain.Prelude.{
  ℕ, ◌^◌, Bool, ◌||◌, Option, none, some, List, [], ◌∷◌, map, if◌then◌else◌,
}
use btc_parachain.Prelude.Result.{Result, ok, err, panic, ok_or, ◌>>=◌}

-- Keys and accounts by their bytes.
abbrev pub Key : Type 0
Key = List ℕ

-- The signature schemes of accounts, of Aura, and of Grandpa.
pub data Scheme : Type 0 where
  sr25519 aura grandpa : Scheme

-- What is called of Substrate: the public key of `Pair::from_string` without a password, if the text
-- names one, and the account of a public key.
pub record KeyLibrary : Type 0 where
  pub from_string : Scheme → String → Option Key
  pub into_account : Key → Key

pub data Alternative : Type 0 where
  development local_testnet : Alternative

pub record GenesisConfig : Type 0 where
  pub code : List ℕ
  pub ids : List Key
  pub balances : List (Key × ℕ)
  pub root_key : Key
  pub aura_authorities : List Key
  pub grandpa_authorities : List (Key × ℕ)

-- The constructor of the genesis block is a closure, so it may panic later than `load`.
pub record ChainSpec : Type 0 where
  pub name : String
  pub id : String
  pub genesis : Result String GenesisConfig

module _ (keys : KeyLibrary) where
  -- `expect("static values are valid; qed")` panics.
  unfoldable pub get_from_seed : {E : Type 0} → Scheme → String → Result E Key
  get_from_seed scheme seed = elim (keys.from_string scheme ("//" ++ seed)) [
    | none ↦ panic
    | some key ↦ ok key
  ]

  unfoldable pub get_account_id_from_seed : {E : Type 0} → String → Result E Key
  get_account_id_from_seed seed = do key ← get_from_seed sr25519 seed; ok (keys.into_account key)

  unfoldable pub get_authority_keys_from_seed : {E : Type 0} → String → Result E (Key × Key)
  get_authority_keys_from_seed seed = do
    aura_id ← get_from_seed aura seed
    grandpa_id ← get_from_seed grandpa seed
    ok (aura_id, grandpa_id)

-- The elements of `vec![..]`, in order.
unfoldable pub vec : {E A B : Type 0} → (A → Result E B) → List A → Result E (List B)
vec f [] = ok []
vec f (a ∷ items) = do b ← f a; rest ← vec f items; ok (b ∷ rest)

abbrev pub testnet_genesis : List ℕ → List (Key × Key) → Key → List Key → GenesisConfig
testnet_genesis wasm_binary initial_authorities root_key endowed_accounts = record {
  code = wasm_binary;
  ids = endowed_accounts;
  balances = map (λ k. (k, 2 ^ 60)) endowed_accounts;
  root_key = root_key;
  aura_authorities = map (λ (x : Key × Key). x.0) initial_authorities;
  grandpa_authorities = map (λ (x : Key × Key). (x.1, 1)) initial_authorities;
}

abbrev pub authority_seeds : Alternative → List String
authority_seeds development = "Alice" ∷ []
authority_seeds local_testnet = "Alice" ∷ "Bob" ∷ []

abbrev pub endowed_seeds : Alternative → List String
endowed_seeds development = "Alice" ∷ "Bob" ∷ "Alice//stash" ∷ "Bob//stash" ∷ []
endowed_seeds local_testnet =
    "Alice" ∷ "Bob" ∷ "Charlie" ∷ "Dave" ∷ "Eve" ∷ "Ferdie" ∷ "Alice//stash" ∷ "Bob//stash"
    ∷ "Charlie//stash" ∷ "Dave//stash" ∷ "Eve//stash" ∷ "Ferdie//stash" ∷ []

module _ (keys : KeyLibrary) (wasm_binary : List ℕ) where
  -- The closures of `Alternative::load`.
  unfoldable pub genesis_of : {E : Type 0} → Alternative → Result E GenesisConfig
  genesis_of alternative = do
    initial_authorities ← vec (get_authority_keys_from_seed keys) (authority_seeds alternative)
    root_key ← get_account_id_from_seed keys "Alice"
    endowed_accounts ← vec (get_account_id_from_seed keys) (endowed_seeds alternative)
    ok (testnet_genesis wasm_binary initial_authorities root_key endowed_accounts)

  unfoldable pub load : Alternative → Result String ChainSpec
  load development =
      ok (record { name = "Development"; id = "dev"; genesis = genesis_of development })
  load local_testnet =
      ok (record {
        name = "Local Testnet";
        id = "local_testnet";
        genesis = genesis_of local_testnet;
      })

unfoldable pub from : String → Option Alternative
from s =
    if s == "dev"
    then some development
    else if (s == "") || (s == "local")
    then some local_testnet
    else none

unfoldable pub load_spec : KeyLibrary → List ℕ → String → Result String (Option ChainSpec)
load_spec keys wasm_binary id = elim (from id) [
  | none ↦ ok none
  | some alternative ↦ do spec ← load keys wasm_binary alternative; ok (some spec)
]
