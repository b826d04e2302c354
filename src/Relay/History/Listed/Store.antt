-- ===== src/Relay/History/Listed/Store.antt =====
-- Storing a verified header (`store_block_header` of crates/btc-relay/src/lib.rs): every chain is
-- found by its id after it, and it does not fail.
use btc_parachain.Prelude.{
  ℕ, suc, ◌≤◌, ◌<◌, ◌+◌, ◌^◌, ◌≡◌, ◌≢◌, ◌⊎◌, refl, ap, ◌∙◌, inl, inr, Bool-cases, some, none, ltb,
  ◌==◌, arith, Option-cases,
}
use btc_parachain.Prelude.Words.{add32}
use btc_parachain.Prelude.Result.{ok}
use btc_parachain.Containers.BTree
use btc_parachain.Containers.BTree.{get-insert}
use btc_parachain.Bitcoin.Types.{BlockHeader, RichBlockHeader}
use btc_parachain.Bitcoin.Hash.{H256Le}
use btc_parachain.Relay.Storage.{Storage, BlockChain, get_block_chain_from_id}
use btc_parachain.Relay.Chains.{main_chain_id, generate_blockchain}
use btc_parachain.Relay.Order.{insert_sorted}
use btc_parachain.Relay.Order.Keeps.{insert_sorted_keeps}
use btc_parachain.Relay.Reorg.{check_and_do_reorg}
use btc_parachain.Relay.Dispatch.{store_verified_header}
use btc_parachain.Relay.Dispatch.Extension.{new_chain, unsorted, fork_run}
use btc_parachain.Relay.Dispatch.Lengthen.{
  height, before, longer, noted, ordered, taken_height, longer_run, longer_ok,
}
use btc_parachain.Relay.History.Listed.{
  IsTopped, IsListed, IsListed-along, IsListed-more, IsEntry-get, Entries-put_chain, main_height,
}
use btc_parachain.Relay.History.Listed.Insert.{insert_sorted-IsListed}
use btc_parachain.Relay.History.Listed.Reorg.{
  Succeeds, check_and_do_reorg-IsListed, check_and_do_reorg_low,
}

module _ (calls : ℕ) (hash : H256Le) (h : BlockHeader) (prev : RichBlockHeader) (s : Storage)
    (k : IsListed calls s) (small : calls + 2 < 2 ^ 32) where
  new_chain-IsTopped : IsTopped (new_chain hash h prev s)
  unfolding new_chain generate_blockchain
  new_chain-IsTopped = (λ j hash' e. ground arith, omega arith)

  unsorted_index :
      (id : ℕ) (c : BlockChain)
      → (unsorted hash h prev s).chains_index id ≡ some c
      → (c ≡ new_chain hash h prev s) × (id ≡ (new_chain hash h prev s).chain_id)
        ⊎ (s.chains_index id ≡ some c)
  unfolding unsorted new_chain generate_blockchain
  unsorted_index id c e = elim (Bool-cases (id == add32 s.chain_counter 1)) [
    | inl new ↦ inl (ground arith, ground arith)
    | inr old ↦ inr (ground arith)
  ]

  new_chain_counter : (new_chain hash h prev s).chain_id ≡ (unsorted hash h prev s).chain_counter
  unfolding new_chain unsorted generate_blockchain
  new_chain_counter = refl

  unsorted_main : main_height (unsorted hash h prev s) ≡ main_height s
  unfolding unsorted
  unsorted_main =
      let new : add32 s.chain_counter 1 ≢ main_chain_id =
        λ e. absurd (omega (arith, e, k.counted, small)) in
      ground (arith, new)

  pub forks-IsListed :
      (before hash h prev s).max_height ≢ prev.block_height
      → Succeeds calls s tt (store_verified_header hash h prev s)
  forks-IsListed not_tip =
      let (e, run) = fork_run hash h prev s not_tip in
      let sorted =
        insert_sorted-IsListed calls (new_chain hash h prev s) s (unsorted hash h prev s) k small
          (unfold unsorted in refl) new_chain-IsTopped unsorted_index
          (unfold unsorted in k.has_best) (unfold unsorted in omega (arith, k.counted, small))
          new_chain_counter in
      let keeps = insert_sorted_keeps (new_chain hash h prev s) (unsorted hash h prev s) in
      rw run (
        refl,
        IsListed-along (suc calls)
            (insert_sorted (new_chain hash h prev s) (unsorted hash h prev s)) _ sorted.best refl
            refl refl sorted.has_best sorted,
        inl (
          ap (λ (u : Storage). main_height u) keeps ∙ unsorted_main,
          ap (λ (u : Storage). u.best_block_height) keeps ∙ (unfold unsorted in refl),
        ),
      )

  -- The entry that is written back is the one that was read.
  noted-IsListed : IsListed calls (noted hash h prev s)
  noted-IsListed =
      let c = before hash h prev s in
      record {
        ids = k.ids;
        holds = k.holds;
        stacked = k.stacked;
        main_first = k.main_first;
        few = k.few;
        counted = k.counted;
        once = k.once;
        below = k.below;
        entries =
            Entries-put_chain k.ids c.chain_id (get_block_chain_from_id c.chain_id s) s.chains_index
              (IsEntry-get calls s k c.chain_id) k.entries;
        best = k.best;
        has_best = k.has_best;
      }

  pub noted_main : main_height (noted hash h prev s) ≡ main_height s
  noted_main = elim (Bool-cases ((before hash h prev s).chain_id == main_chain_id)) [
    | inl main ↦ ground arith
    | inr other ↦ ground arith
  ]

  pub not_listed :
      (before hash h prev s).chain_id ≡ main_chain_id
      → check_and_do_reorg (longer hash h prev s) (noted hash h prev s)
        ≡ (ok tt, noted hash h prev s)
  unfolding check_and_do_reorg
  not_listed main = ground arith

  module _ (on_tip : (before hash h prev s).max_height ≡ prev.block_height) where
    module _ (no_wrap : prev.block_height + 1 < 2 ^ 32) where
      is_free : BTree.get (height hash h prev s) (before hash h prev s).chain ≡ none
      is_free =
          elim (Option-cases (BTree.get (height hash h prev s) (before hash h prev s).chain)) [
            | inl free ↦ free
            | inr (old, e) ↦
                let le =
                  (IsEntry-get calls s k prev.chain_ref).topped.0 (height hash h prev s) old e in
                absurd (omega (arith, le, on_tip, no_wrap))
          ]

      longer-IsTopped : IsTopped (longer hash h prev s)
      longer-IsTopped = (
        λ j hash' e. elim (Bool-cases (j == height hash h prev s)) [
          | inl here ↦ ground arith
          | inr below ↦
              let old : BTree.get j (before hash h prev s).chain ≡ some hash' =
                ground
                  (arith, get-insert j (height hash h prev s) hash (before hash h prev s).chain) in
              let le = (IsEntry-get calls s k prev.chain_ref).topped.0 j hash' old in
              omega (arith, le, on_tip, no_wrap)
        ],
        omega arith,
      )

      longer_tip :
          BTree.get (longer hash h prev s).max_height (longer hash h prev s).chain ≡ some hash
      longer_tip =
          get-insert (height hash h prev s) (height hash h prev s) hash (before hash h prev s).chain
          ∙ ground arith

      pub ordered-Succeeds :
          Succeeds calls
            (noted hash h prev s)
            tt
            (check_and_do_reorg (longer hash h prev s) (noted hash h prev s))
      unfolding noted-IsListed
      ordered-Succeeds = elim (Bool-cases ((before hash h prev s).chain_id == main_chain_id)) [
        | inl main ↦ rw (not_listed (ground arith)) (
          refl,
          IsListed-more calls (suc calls) (noted hash h prev s) (omega arith) noted-IsListed,
          inl (refl, refl),
        )
        | inr other ↦
            check_and_do_reorg-IsListed calls (longer hash h prev s) (omega arith) (ground arith)
              longer-IsTopped hash longer_tip (noted hash h prev s) noted-IsListed
              (IsEntry-get calls s k prev.chain_ref).listed
      ]

      extends_ok : (store_verified_header hash h prev s).0 ≡ ok tt
      extends_ok = longer_ok hash h prev s on_tip is_free ordered-Succeeds.0

    ordered-IsListed : IsListed (suc calls) (ordered hash h prev s)
    ordered-IsListed = elim (Bool-cases (ltb (prev.block_height + 1) (2 ^ 32))) [
      | inl no_wrap ↦ (ordered-Succeeds (ground arith)).1
      | inr wrap ↦
          let bound = (IsEntry-get calls s k prev.chain_ref).topped.1 in
          let last : 2 ^ 32 ≤ prev.block_height + 1 = ground arith in
          let zero_height : (longer hash h prev s).max_height ≡ 0 =
            omega (arith, bound, on_tip, last) in
          rw (check_and_do_reorg_low (longer hash h prev s) (noted hash h prev s) zero_height)
            (IsListed-more calls (suc calls) (noted hash h prev s) (omega arith) noted-IsListed)
    ]

    extends-IsListed : IsListed (suc calls) (store_verified_header hash h prev s).1
    extends-IsListed =
        let o = ordered-IsListed in
        elim (Option-cases (BTree.get (height hash h prev s) (before hash h prev s).chain)) [
          | inr (old, e) ↦
              rw (taken_height hash h prev s on_tip old e)
                (IsListed-more calls (suc calls) s (omega arith) k)
          | inl free ↦ elim (longer_run hash h prev s on_tip free) [
            | inl e ↦ rw e o
            | inr (inl e) ↦ rw e (
                IsListed-along (suc calls) (ordered hash h prev s) _ o.best refl refl refl
                  o.has_best o)
            | inr (inr (on_main, e)) ↦
                rw e
                  (IsListed-along (suc calls) (ordered hash h prev s) _ hash refl refl refl refl o)
          ]
        ]

  pub store_verified_header-IsListed : IsListed (suc calls) (store_verified_header hash h prev s).1
  store_verified_header-IsListed =
      elim (Bool-cases ((before hash h prev s).max_height == prev.block_height)) [
        | inl tip ↦ extends-IsListed (ground arith)
        | inr other ↦ (forks-IsListed (λ same. absurd (ground (arith, same)))).1
      ]

  -- Below the last u32 height a header that follows a stored one is stored without an error.
  pub store_verified_header_ok :
      prev.block_height + 1 < 2 ^ 32 → (store_verified_header hash h prev s).0 ≡ ok tt
  store_verified_header_ok no_wrap =
      elim (Bool-cases ((before hash h prev s).max_height == prev.block_height)) [
        | inl tip ↦ extends_ok (ground arith) no_wrap
        | inr other ↦ (forks-IsListed (λ same. absurd (ground (arith, same)))).0
      ]
