-- ===== src/Examples/Node.antt =====
-- Examples of the chain specification.
use Prim.Native.String.{String, len, ◌++◌}
use btc_parachain.Prelude.{◌≡◌, refl, some, [], ◌∷◌, List, ℕ}
use btc_parachain.Prelude.Result.{ok}
use btc_parachain.Node.{
  KeyLibrary, Scheme, sr25519, aura, grandpa, local_testnet, ChainSpec, from, load_spec,
}
use btc_parachain.Node.Network.{network_of, accounts_of, AllSeeds, IsSpecOf}
use btc_parachain.Node.Genesis.{load_spec-IsSpecOf}

-- Every text names a key, by its scheme and its length.
abbrev number : Scheme → ℕ
number sr25519 = 0
number aura = 1
number grandpa = 2

abbrev one_key : KeyLibrary
one_key = record {
  from_string = λ scheme text. some (number scheme ∷ len text ∷ []);
  into_account = λ key. 7 ∷ key;
}

any_seeds : (seeds : List String) → AllSeeds one_key seeds
any_seeds [] = tt
any_seeds (seed ∷ seeds) =
    (λ scheme. (number scheme ∷ len ("//" ++ seed) ∷ [], refl), any_seeds seeds)

local_name : from "local" ≡ some local_testnet
unfolding from
local_name = refl

load_spec-IsSpecOf_example :
    (spec : ChainSpec) × (load_spec one_key (1 ∷ []) "local" ≡ ok (some spec))
    × IsSpecOf one_key (network_of local_testnet) (1 ∷ []) spec
load_spec-IsSpecOf_example =
    load_spec-IsSpecOf one_key (1 ∷ []) "local" local_testnet local_name
      (any_seeds (accounts_of (network_of local_testnet)))
