-- ===== src/Relay/History/Swap.antt =====
-- Swapping a fork with the main chain keeps the storage consistent, whatever its outcome
-- (`swap_main_blockchain` of crates/btc-relay/src/lib.rs).
use btc_parachain.Prelude.{ℕ, ◌≡◌, refl, ap, inl, inr, Option-cases, ◌⊎◌, some, none, arith}
use btc_parachain.Prelude.Result.{Result, Result-cases, ok, err, panic}
use btc_parachain.Containers.BTree
use btc_parachain.Containers.BTree.{BTreeMap}
use btc_parachain.Bitcoin.Hash.{H256Le}
use btc_parachain.Relay.Storage.{Storage, BlockChain, find_position, increment_chain_counter}
use btc_parachain.Relay.Chains.{main_chain_id}
use btc_parachain.Relay.Reorg.{
  joined_chain, forked_main_chain, tip_of, set_chain_refs, swap_main_blockchain,
}
use btc_parachain.Relay.Reorg.Swap
use btc_parachain.Containers.LinkedMap.{LinkedMap}
use btc_parachain.BtcCore.{Error}
use btc_parachain.Relay.Order.{insert_sorted}
use btc_parachain.Relay.History.{Grows-refl, IsStored, AllStored, IsConsistent, AllStored-Grows}
use btc_parachain.Relay.History.Stored.{
  AllStored-get, AllStored-keys_below, AllStored-keys_from, AllStored-append, AllChains-put_chain,
  AllChains-remove, AllChains-get,
}
use btc_parachain.Relay.History.Keeps.{Keeps, Keeps-trans, IsConsistent-along}
use btc_parachain.Relay.History.Refs.{set_chain_refs-Keeps, insert_sorted-Keeps}

module _ (genesis : H256Le) (fork : BlockChain) (s : Storage)
    (all : AllStored s.block_headers fork.chain) (k : IsConsistent genesis s) where
  joined-AllStored : AllStored s.block_headers (joined_chain (Swap.old_main fork s) fork).chain
  unfolding joined_chain
  joined-AllStored =
      let main = Swap.old_main fork s in
      AllStored-append s.block_headers (BTree.keys_below fork.start_height main.chain) fork.chain
        (AllStored-keys_below s.block_headers fork.start_height main.chain
          (AllChains-get s.block_headers main_chain_id s k.blocks))
        all

  forked-AllStored : AllStored s.block_headers (Swap.forked fork s).chain
  unfolding forked_main_chain
  forked-AllStored =
      let main = Swap.old_main fork s in
      AllStored-keys_from s.block_headers fork.start_height main.chain
        (AllChains-get s.block_headers main_chain_id s k.blocks)

  tip-IsStored :
      (tip : H256Le)
      → tip_of (joined_chain (Swap.old_main fork s) fork) ≡ ok tip
      → IsStored s.block_headers fork.max_height tip
  unfolding joined_chain
  tip-IsStored tip e =
      AllStored-get s.block_headers fork.max_height tip
        (joined_chain (Swap.old_main fork s) fork).chain joined-AllStored (ground arith)

  base-IsConsistent :
      (m : LinkedMap) (tip : H256Le)
      → tip_of (joined_chain (Swap.old_main fork s) fork) ≡ ok tip
      → IsConsistent genesis (Swap.base fork s m tip)
  base-IsConsistent m tip has_tip =
      let (r, stored, height) = tip-IsStored tip has_tip in
      record {
        stored_hash = k.stored_hash;
        linked = k.linked;
        blocks = AllChains-put_chain s.block_headers _ (Swap.forked fork s) _ forked-AllStored (
            AllChains-remove s.block_headers fork.chain_id _ (
              AllChains-put_chain s.block_headers main_chain_id
                (joined_chain (Swap.old_main fork s) fork) s.chains_index joined-AllStored
                k.blocks));
        tip = tip;
        tip_header = r;
        best = refl;
        tip_stored = stored;
        tip_height = height;
      }

  module _ (m : LinkedMap) (tip : H256Le) (position : ℕ)
      (has_tip : tip_of (joined_chain (Swap.old_main fork s) fork) ≡ ok tip)
      (listed : find_position fork.chain_id s.chains ≡ some position) where
    after-Keeps : Keeps genesis s (Swap.after fork s tip position has_tip listed m)
    unfolding Swap.after
    after-Keeps =
        let based = Swap.base fork s m tip in
        let sorted = insert_sorted (Swap.forked fork s) based in
        let moved = set_chain_refs (Swap.forked fork s).chain (Swap.new_id fork s) sorted in
        let a =
          insert_sorted-Keeps genesis (Swap.forked fork s) based
            (base-IsConsistent m tip has_tip) in
        let stay = AllStored-Grows s.block_headers sorted.block_headers a.grows in
        let b =
          set_chain_refs-Keeps genesis (Swap.forked fork s).chain (Swap.new_id fork s) sorted
            (stay (Swap.forked fork s).chain forked-AllStored) a.consistent in
        let c =
          set_chain_refs-Keeps genesis fork.chain main_chain_id moved
            (AllStored-Grows sorted.block_headers moved.block_headers b.grows fork.chain
              (stay fork.chain all))
            b.consistent in
        let all_three =
          Keeps-trans genesis based moved _ (Keeps-trans genesis based sorted moved a b) c in
        record { consistent = c.consistent; grows = all_three.grows; within = all_three.within }

  counted : Storage
  counted = record s { chain_counter = Swap.new_id fork s }

  counted-Keeps : Keeps genesis s counted
  unfolding counted
  counted-Keeps = record {
    consistent = IsConsistent-along genesis s counted refl refl refl refl k;
    grows = Grows-refl s.block_headers;
    within = λ hash e. e;
  }

  tipless :
      ((e : Error) × (tip_of (joined_chain (Swap.old_main fork s) fork) ≡ err e))
        ⊎ (tip_of (joined_chain (Swap.old_main fork s) fork) ≡ panic)
      → (swap_main_blockchain fork s).1 ≡ counted
  unfolding swap_main_blockchain increment_chain_counter counted
  tipless stop = ground arith

  unlisted :
      (tip : H256Le)
      → tip_of (joined_chain (Swap.old_main fork s) fork) ≡ ok tip
      → find_position fork.chain_id s.chains ≡ none
      → (swap_main_blockchain fork s).1 ≡ counted
  unfolding swap_main_blockchain increment_chain_counter counted
  unlisted tip has_tip missing = ground arith

  pub swap_main_blockchain-Keeps : Keeps genesis s (swap_main_blockchain fork s).1
  swap_main_blockchain-Keeps =
      elim (Result-cases (tip_of (joined_chain (Swap.old_main fork s) fork))) [
        | inl (tip, has_tip) ↦ elim (Option-cases (find_position fork.chain_id s.chains)) [
          | inr (position, listed) ↦
              let (m, run) = Swap.swap_run fork s tip position has_tip listed in
              rw (ap (λ (r : Result Error (Unit {0}) × Storage). r.1) run)
                (after-Keeps m tip position has_tip listed)
          | inl missing ↦ rw (unlisted tip has_tip missing) counted-Keeps
        ]
        | inr stop ↦ rw (tipless stop) counted-Keeps
      ]
