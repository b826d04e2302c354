-- ===== src/Relay/History/Listed/Insert.antt =====
-- A new fork goes into the list of the chains (`insert_sorted` of crates/btc-relay/src/lib.rs).
use btc_parachain.Prelude.{
  ℕ, suc, ◌<◌, ◌+◌, ◌^◌, ◌≡◌, ◌⊎◌, ap, sym, ◌∙◌, inl, inr, some, length, arith,
}
use btc_parachain.Relay.Storage.{Storage, BlockChain}
use btc_parachain.Relay.Chains.{main_chain_id}
use btc_parachain.Relay.Order.{insert_sorted}
use btc_parachain.Containers.LinkedMap.Listing.{Holds}
use btc_parachain.Relay.Order.Keeps.{insert_sorted_keeps}
use btc_parachain.Relay.Order.Insertion.{height_of, insert_sorted-Holds, insert_sorted-Stacked}
use btc_parachain.Relay.Order.Placing.{place_fork}
use btc_parachain.Relay.Order.Lists.{
  Lists-place_fork, Lists-place_fork_new, first-place_fork, length-place_fork,
}
use btc_parachain.Relay.History.Listed.{IsTopped, IsListed, IsEntry-Lists}
use btc_parachain.Relay.Order.Once.{Once-place_fork, Lists-place_fork_from}

-- A new chain that is stored under its id goes into the list.
pub insert_sorted-IsListed :
    (calls : ℕ) (b : BlockChain) (s t : Storage) (k : IsListed calls s)
    → calls + 2 < 2 ^ 32
    → t.chains ≡ s.chains
    → IsTopped b
    → ((id : ℕ) (c : BlockChain)
        → t.chains_index id ≡ some c
        → (c ≡ b) × (id ≡ b.chain_id) ⊎ (s.chains_index id ≡ some c))
    → t.best_block ≡ some k.best
    → t.chain_counter ≡ suc s.chain_counter
    → b.chain_id ≡ t.chain_counter
    → IsListed (suc calls) (insert_sorted b t)
insert_sorted-IsListed calls b s t k small same topped index best counter newest =
    let held : Holds t.chains k.ids = rw same k.holds in
    let short : length k.ids + 1 < 2 ^ 32 = omega (arith, k.few, small) in
    let keeps = insert_sorted_keeps b t in
    let count : (insert_sorted b t).chain_counter ≡ suc s.chain_counter =
      ap (λ (u : Storage). u.chain_counter) keeps ∙ counter in
    let ids' = place_fork (height_of t) b.max_height b.chain_id k.ids in
    record {
      ids = ids';
      holds = insert_sorted-Holds b t k.ids held short;
      stacked = insert_sorted-Stacked b t k.ids held short (rw same k.stacked);
      main_first =
          first-place_fork (height_of t) b.max_height b.chain_id k.ids main_chain_id k.main_first;
      few = omega (arith, length-place_fork (height_of t) b.max_height b.chain_id k.ids, k.few);
      counted = omega (arith, count, k.counted);
      once =
          Once-place_fork (height_of t) b.max_height b.chain_id k.ids
            (λ j e. absurd (omega (arith, newest, counter, k.below j b.chain_id e))) k.once;
      below = λ j v e.
          elim (Lists-place_fork_from (height_of t) b.max_height b.chain_id k.ids j v e) [
            | inl new ↦ omega (arith, new, newest, counter, count)
            | inr (i, old) ↦ omega (arith, k.below i v old, count)
          ];
      entries = λ id c e.
          elim (index id c (sym (ap (λ (u : Storage). u.chains_index id) keeps) ∙ e)) [
            | inl (is, own) ↦ rw is (record {
              own = inl (sym own);
              listed = Lists-place_fork_new (height_of t) b.max_height b.chain_id k.ids;
              topped = topped;
            })
            | inr old ↦
                let entry = k.entries id c old in
                IsEntry-Lists k.ids ids' id c
                  (Lists-place_fork (height_of t) b.max_height b.chain_id k.ids c.chain_id
                    entry.listed)
                  entry
          ];
      best = k.best;
      has_best = ap (λ (u : Storage). u.best_block) keeps ∙ best;
    }
