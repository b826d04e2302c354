-- ===== src/Relay/History/Store.antt =====
-- Storing a checked header keeps the storage consistent, whatever the outcome (`store_block_header`
-- of crates/btc-relay/src/lib.rs).
use btc_parachain.Prelude.{
  ℕ, ◌∙◌, ◌<◌, ◌≡◌, ◌≢◌, refl, ap, Bool-cases, inl, inr, ◌==◌, Option-cases, some, none, List,
  arith,
}
use btc_parachain.Prelude.Words.{add32}
use btc_parachain.Prelude.Result.{ok, Result}
use btc_parachain.Containers.BTree
use btc_parachain.BtcCore.{Error}
use btc_parachain.Bitcoin.Types.{BlockHeader, RichBlockHeader}
use btc_parachain.Bitcoin.Hash
use btc_parachain.Bitcoin.Hash.{H256Le, eq_refl, eq_sound}
use btc_parachain.Relay.Storage.{Storage, BlockChain, Event, get_block_chain_from_id, put_header}
use btc_parachain.Relay.Chains.{generate_blockchain}
use btc_parachain.Relay.Order.{insert_sorted}
use btc_parachain.Relay.Dispatch.{store_verified_header}
use btc_parachain.Relay.Dispatch.Extension.{
  rich, new_chain, unsorted, fork_run, store_verified_header_fork,
}
use btc_parachain.Relay.Dispatch.Lengthen
use btc_parachain.Relay.History.{
  Headers, Grows, Grows-trans, FromGenesis, follows, FromGenesis-Grows, IsStored, AllStored,
  IsConsistent, IsStored-Grows, AllStored-Grows,
}
use btc_parachain.Relay.History.Stored.{AllStored-insert, AllChains-put_chain, AllChains-get}
use btc_parachain.Relay.History.Keeps.{Extends, Extends-refl, Extends-trans, Keeps-Extends}
use btc_parachain.Relay.History.Refs.{insert_sorted-Keeps}
use btc_parachain.Relay.History.Reorg.{events-Keeps, check_and_do_reorg-Keeps}

module _ (genesis hash : H256Le) (h : BlockHeader) (prev : RichBlockHeader) (s : Storage)
    (k : IsConsistent genesis s) (is_new : s.block_headers hash ≡ none)
    (has_prev : s.block_headers h.hash_prev_block ≡ some prev)
    (work : Hash.as_u256 hash < h.target) where
  abbrev height : ℕ
  height = add32 prev.block_height 1

  module _ (chain_ref : ℕ) where
    abbrev added : Headers
    added = put_header hash (rich hash h height chain_ref) s.block_headers

    added-Grows : Grows s.block_headers added
    added-Grows hash' r e = elim (Bool-cases (Hash.eq hash' hash)) [
      | inl same ↦
          let hash_eq : hash' ≡ hash = eq_sound hash' hash same in
          absurd (ground (arith, ap s.block_headers hash_eq))
      | inr other ↦ (r.chain_ref, ground arith)
    ]

    added_here : added hash ≡ some (rich hash h height chain_ref)
    added_here = rw (eq_refl hash) refl

    added-IsStored : IsStored added height hash
    added-IsStored = (rich hash h height chain_ref, added_here, refl)

    new-FromGenesis : FromGenesis genesis added hash
    new-FromGenesis =
        let (c, e) = added-Grows h.hash_prev_block prev has_prev in
        follows (rich hash h height chain_ref) (record prev { chain_ref = c }) added_here e refl
          work
          (FromGenesis-Grows genesis s.block_headers added added-Grows h.hash_prev_block
            (k.linked h.hash_prev_block prev has_prev))

    -- With the new header in it, the storage is consistent.
    added-IsConsistent : IsConsistent genesis (record s { block_headers = added })
    added-IsConsistent =
        let (r, stored, tip_height) =
          IsStored-Grows s.block_headers added added-Grows s.best_block_height k.tip
            (k.tip_header, k.tip_stored, k.tip_height) in
        record {
          stored_hash = λ hash' r' e. elim (Bool-cases (Hash.eq hash' hash)) [
            | inl same ↦ let hash_eq : hash' ≡ hash = eq_sound hash' hash same in ground arith
            | inr other ↦ k.stored_hash hash' r' (ground arith)
          ];
          linked = λ hash' r' e. elim (Bool-cases (Hash.eq hash' hash)) [
            | inl same ↦
                let hash_eq : hash' ≡ hash = eq_sound hash' hash same in rw hash_eq new-FromGenesis
            | inr other ↦
                FromGenesis-Grows genesis s.block_headers added added-Grows hash'
                  (k.linked hash' r' (ground arith))
          ];
          blocks =
              λ id c e. AllStored-Grows s.block_headers added added-Grows c.chain (k.blocks id c e);
          tip = k.tip;
          tip_header = r;
          best = k.best;
          tip_stored = stored;
          tip_height = tip_height;
        }

  new_chain-AllStored : AllStored (added (add32 s.chain_counter 1)) (new_chain hash h prev s).chain
  unfolding new_chain generate_blockchain
  new_chain-AllStored = (added-IsStored (add32 s.chain_counter 1), tt)

  unsorted-IsConsistent : IsConsistent genesis (unsorted hash h prev s)
  unfolding unsorted
  unsorted-IsConsistent =
      let id = add32 s.chain_counter 1 in
      let k' = added-IsConsistent id in
      record {
        stored_hash = k'.stored_hash;
        linked = k'.linked;
        blocks =
            AllChains-put_chain (added id) id (new_chain hash h prev s) s.chains_index
              new_chain-AllStored k'.blocks;
        tip = k'.tip;
        tip_header = k'.tip_header;
        best = k'.best;
        tip_stored = k'.tip_stored;
        tip_height = k'.tip_height;
      }

  unsorted-Grows : Grows s.block_headers (unsorted hash h prev s).block_headers
  unfolding unsorted
  unsorted-Grows = added-Grows (add32 s.chain_counter 1)

  forks-Extends :
      (get_block_chain_from_id prev.chain_ref s).max_height ≢ prev.block_height
      → Extends genesis s (store_verified_header hash h prev s).1
  forks-Extends not_tip =
      let (e, run) = fork_run hash h prev s not_tip in
      let sorted =
        insert_sorted-Keeps genesis (new_chain hash h prev s) (unsorted hash h prev s)
          unsorted-IsConsistent in
      let final =
        events-Keeps genesis (insert_sorted (new_chain hash h prev s) (unsorted hash h prev s)) e
          sorted.consistent in
      rw (ap (λ (r : Result Error (Unit {0}) × Storage). r.1) run) (record {
        consistent = final.consistent;
        grows =
            Grows-trans s.block_headers (unsorted hash h prev s).block_headers _ unsorted-Grows
              sorted.grows;
      })

  abbrev before : BlockChain
  before = Lengthen.before hash h prev s

  abbrev longer : BlockChain
  longer = Lengthen.longer hash h prev s

  abbrev noted : Storage
  noted = Lengthen.noted hash h prev s

  pub noted-Extends : Extends genesis s noted
  noted-Extends =
      let k' = added-IsConsistent before.chain_id in
      record {
        consistent = record {
          stored_hash = k'.stored_hash;
          linked = k'.linked;
          blocks =
              AllChains-put_chain (added before.chain_id) before.chain_id
                (get_block_chain_from_id before.chain_id s) s.chains_index
                (AllChains-get (added before.chain_id) before.chain_id
                  (record s { block_headers = added before.chain_id }) k'.blocks)
                k'.blocks;
          tip = k'.tip;
          tip_header = k'.tip_header;
          best = k'.best;
          tip_stored = k'.tip_stored;
          tip_height = k'.tip_height;
        };
        grows = added-Grows before.chain_id;
      }

  pub longer-AllStored : AllStored noted.block_headers longer.chain
  longer-AllStored =
      AllStored-insert (added before.chain_id) height hash before.chain
        (added-IsStored before.chain_id)
        (AllStored-Grows s.block_headers (added before.chain_id) (added-Grows before.chain_id)
          before.chain (AllChains-get s.block_headers prev.chain_ref s k.blocks))

  abbrev ordered : Storage
  ordered = Lengthen.ordered hash h prev s

  module _ (on_tip : before.max_height ≡ prev.block_height) where
    ordered-Extends : Extends genesis s ordered
    ordered-Extends = Extends-trans genesis s noted ordered noted-Extends (
        Keeps-Extends genesis noted ordered
          (check_and_do_reorg-Keeps genesis longer noted longer-AllStored noted-Extends.consistent))

    best-Extends :
        (events : List Event)
        → Extends genesis s
            (record ordered { best_block = some hash; best_block_height = height; events = events })
    best-Extends events =
        let c = ordered-Extends.consistent in
        let (r, stored, at) =
          IsStored-Grows noted.block_headers ordered.block_headers
            (check_and_do_reorg-Keeps genesis longer noted longer-AllStored
              noted-Extends.consistent).grows
            height hash (added-IsStored before.chain_id) in
        record {
          consistent = record {
            stored_hash = c.stored_hash;
            linked = c.linked;
            blocks = c.blocks;
            tip = hash;
            tip_header = r;
            best = refl;
            tip_stored = stored;
            tip_height = at;
          };
          grows = ordered-Extends.grows;
        }

    tip-Extends : Extends genesis s (store_verified_header hash h prev s).1
    tip-Extends = elim (Option-cases (BTree.get height before.chain)) [
      | inr (old, e) ↦
          rw (Lengthen.taken_height hash h prev s on_tip old e) (Extends-refl genesis s k)
      | inl free ↦ elim (Lengthen.longer_run hash h prev s on_tip free) [
        | inl e ↦ rw e ordered-Extends
        | inr (inl e) ↦ rw e (
            Extends-trans genesis s ordered _ ordered-Extends (
              Keeps-Extends genesis ordered _
                (events-Keeps genesis ordered _ ordered-Extends.consistent)))
        | inr (inr (on_main, e)) ↦ rw e (best-Extends _)
      ]
    ]

  -- A header that is new, follows a stored one and has a hash below its target is stored, or refused,
  -- and the storage stays consistent.
  pub store_verified_header-Extends : Extends genesis s (store_verified_header hash h prev s).1
  store_verified_header-Extends = elim (Bool-cases (before.max_height == prev.block_height)) [
    | inl tip ↦ tip-Extends (ground arith)
    | inr other ↦ forks-Extends (λ same. absurd (ground (arith, same)))
  ]

  -- What is stored without an error is found by its hash.
  pub store_verified_header_stores :
      (store_verified_header hash h prev s).0 ≡ ok tt
      → (c : ℕ) × ((store_verified_header hash h prev s).1.block_headers hash
          ≡ some (rich hash h height c))
  store_verified_header_stores done = elim (Bool-cases (before.max_height == prev.block_height)) [
    | inr other ↦
        let opens =
          (store_verified_header_fork hash h prev s (λ same. absurd (ground (arith, same)))).1 in
        (add32 s.chain_counter 1, ground (arith, opens.headers, eq_refl hash))
    | inl tip ↦
        let on_tip : before.max_height ≡ prev.block_height = ground arith in
        let grows =
          (check_and_do_reorg-Keeps genesis longer noted longer-AllStored
            noted-Extends.consistent).grows in
        let (c, e) = grows hash (rich hash h height before.chain_id) (added_here before.chain_id) in
        elim (Option-cases (BTree.get height before.chain)) [
          | inr (old, taken) ↦
              absurd (ground (arith, Lengthen.taken_height hash h prev s on_tip old taken, done))
          | inl free ↦ elim (Lengthen.longer_run hash h prev s on_tip free) [
            | inl at ↦ (c, ap (λ (t : Storage). t.block_headers hash) at ∙ e)
            | inr (inl at) ↦ (c, ap (λ (t : Storage). t.block_headers hash) at ∙ e)
            | inr (inr (on_main, at)) ↦ (c, ap (λ (t : Storage). t.block_headers hash) at ∙ e)
          ]
        ]
  ]
