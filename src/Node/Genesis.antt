-- ===== src/Node/Genesis.antt =====
-- The genesis blocks of parachain/src/chain_spec.rs, where the seeds name keys.
use Prim.Native.String.{String}
use btc_parachain.Prelude.{ℕ, ◌^◌, ◌<◌, ◌≡◌, refl, some, List, [], ◌∷◌, length, arith}
use btc_parachain.Prelude.Result.{Result, ok}
use btc_parachain.Node.{
  Key, Scheme, sr25519, aura, grandpa, KeyLibrary, Alternative, development, local_testnet,
  GenesisConfig, ChainSpec, get_from_seed, get_account_id_from_seed, get_authority_keys_from_seed,
  vec, testnet_genesis, authority_seeds, endowed_seeds, genesis_of, load, from, load_spec,
}
use btc_parachain.Node.Network.{
  Network, network_of, accounts_of, IsSeed, AllSeeds, Each, IsKey, IsAccount, IsFunded, IsSpecOf,
  total-map, Each-length, Each-map, Each-pair,
}

module _ (keys : KeyLibrary) where
  seed_run :
      {E : Type 0} (scheme : Scheme) (seed : String) (k : Key)
      → IsKey keys scheme seed k
      → get_from_seed keys {E = E} scheme seed ≡ ok k
  unfolding get_from_seed
  seed_run scheme seed k e = rw (get_from_seed, e) refl

  IsAccount-run :
      {E : Type 0} (seed : String)
      → IsSeed keys seed
      → (id : Key) × (get_account_id_from_seed keys {E = E} seed ≡ ok id) × IsAccount keys seed id
  unfolding get_account_id_from_seed
  IsAccount-run {E} seed good =
      let (k, e) = good sr25519 in
      (keys.into_account k, rw (seed_run {E = E} sr25519 seed k e) refl, (k, e, refl))

  -- The keys of an authority.
  abbrev IsAuthority : String → Key × Key → Type 0
  IsAuthority seed ks = IsKey keys aura seed ks.0 × IsKey keys grandpa seed ks.1

  IsAuthority-run :
      {E : Type 0} (seed : String)
      → IsSeed keys seed
      → (ks : Key × Key) × (get_authority_keys_from_seed keys {E = E} seed ≡ ok ks)
        × IsAuthority seed ks
  unfolding get_authority_keys_from_seed
  IsAuthority-run {E} seed good =
      let (k, e) = good aura in
      let (l, f) = good grandpa in
      ((k, l), rw (seed_run {E = E} aura seed k e, seed_run {E = E} grandpa seed l f) refl, (e, f))

  vec_run :
      {E A : Type 0} (R : String → A → Type 0) (f : String → Result E A)
      → ((seed : String) → IsSeed keys seed → (a : A) × (f seed ≡ ok a) × R seed a)
      → (seeds : List String) → AllSeeds keys seeds
      → (items : List A) × (vec f seeds ≡ ok items) × Each R seeds items
  unfolding vec
  vec_run R f each [] good = ([], refl, tt)
  vec_run R f each (seed ∷ seeds) (one, good) =
      let (a, e, r) = each seed one in
      let (items, run, rs) = vec_run R f each seeds good in (a ∷ items, rw (e, run) refl, (r, rs))

  -- A genesis block of a network whose first account is Alice's.
  testnet_genesis-IsFunded :
      (code : List ℕ) (n : Network) (authorities : List (Key × Key)) (root : Key)
      (others : List Key)
      → IsAccount keys "Alice" root
      → Each IsAuthority n.authorities authorities
      → Each (IsAccount keys) (accounts_of n) (root ∷ others)
      → length (accounts_of n) < 2 ^ 60
      → IsFunded keys n (testnet_genesis code authorities root (root ∷ others))
  testnet_genesis-IsFunded code n authorities root others alice auths accounts few =
      let size = Each-length (IsAccount keys) (accounts_of n) (root ∷ others) accounts in
      record {
        root = alice;
        root_endowed = refl;
        accounts = accounts;
        balances = Each-pair (2 ^ 60) (root ∷ others);
        fits = omega (arith, total-map (2 ^ 60) (root ∷ others), size, few);
        aura_keys =
            Each-map IsAuthority _ (λ (x : Key × Key). x.0) (λ seed ks e. e.0) n.authorities
              authorities auths;
        grandpa_keys =
            Each-map IsAuthority _ (λ (x : Key × Key). (x.1, 1)) (λ seed ks e. (e.1, refl))
              n.authorities authorities auths;
      }

  same_seeds :
      (a : Alternative)
      → (endowed_seeds a ≡ accounts_of (network_of a))
        × (authority_seeds a ≡ (network_of a).authorities)
  same_seeds development = (refl, refl)
  same_seeds local_testnet = (refl, refl)

  -- What the closures make of a network whose first account is Alice's.
  abbrev Makes : List ℕ → Alternative → Type 0
  Makes code a =
      (g : GenesisConfig) × (genesis_of keys code {E = String} a ≡ ok g)
      × (g.code ≡ code)
      × IsFunded keys (network_of a) g

  makes :
      (code : List ℕ) (a : Alternative) (rest : List String)
      → accounts_of (network_of a) ≡ "Alice" ∷ rest
      → length (accounts_of (network_of a)) < 2 ^ 60
      → IsSeed keys "Alice"
      → AllSeeds keys rest
      → AllSeeds keys (network_of a).authorities
      → Makes code a
  unfolding genesis_of vec
  makes code a rest first few alice good good' =
      let (root, e, is_root) = IsAccount-run {E = String} "Alice" alice in
      let (authorities, f, are) =
        vec_run {E = String} IsAuthority (get_authority_keys_from_seed keys) IsAuthority-run
          (network_of a).authorities good' in
      let (others, g, own) =
        vec_run {E = String} (IsAccount keys) (get_account_id_from_seed keys) IsAccount-run rest
          good in
      (
        testnet_genesis code authorities root (root ∷ others),
        rw ((same_seeds a).0, (same_seeds a).1, first, f, e, g) refl,
        refl,
        testnet_genesis-IsFunded code (network_of a) authorities root others is_root are
            (rw first (is_root, own)) few,
      )

  genesis_run :
      (code : List ℕ) (a : Alternative) → AllSeeds keys (accounts_of (network_of a)) → Makes code a
  genesis_run code development (alice, more) =
      makes code development _ refl (omega arith) alice more (alice, tt)
  genesis_run code local_testnet (alice, (bob, more)) =
      makes code local_testnet _ refl (omega arith) alice (bob, more) (alice, (bob, tt))

  -- The id of an alternative gives the specification of its network, under its name and its id, where
  -- the names of its accounts name keys of every scheme. The genesis block is made without a panic and
  -- has the code that is given. Its accounts are those of Alice, Bob and their stashes, and for the
  -- local testnet also of Charlie, Dave, Eve, Ferdie and theirs, each with a balance of 2 ^ 60, and the
  -- sum is below 2 ^ 128. The sudo key is Alice's account, the first one. Alice, and for the local
  -- testnet also Bob, are the authorities, each with an Aura key and with a Grandpa key of weight 1.
  pub load_spec-IsSpecOf :
      (code : List ℕ) (id : String) (a : Alternative)
      → from id ≡ some a
      → AllSeeds keys (accounts_of (network_of a))
      → (spec : ChainSpec) × (load_spec keys code id ≡ ok (some spec))
        × IsSpecOf keys (network_of a) code spec
  unfolding load_spec load
  load_spec-IsSpecOf code id development e good =
      let (g, run, has_code, funds) = genesis_run code development good in
      (
        record { name = "Development"; id = "dev"; genesis = genesis_of keys code development },
        rw (load_spec, e) refl,
        record {
          has_name = refl;
          has_id = refl;
          config = g;
          made = run;
          has_code = has_code;
          funded = funds;
        },
      )
  load_spec-IsSpecOf code id local_testnet e good =
      let (g, run, has_code, funds) = genesis_run code local_testnet good in
      (
        record {
          name = "Local Testnet";
          id = "local_testnet";
          genesis = genesis_of keys code local_testnet;
        },
        rw (load_spec, e) refl,
        record {
          has_name = refl;
          has_id = refl;
          config = g;
          made = run;
          has_code = has_code;
          funded = funds;
        },
      )
