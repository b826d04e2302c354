-- ===== src/Relay/History/Listed/Climb.antt =====
-- The best height of the relay (crates/btc-relay/src/lib.rs) goes up with the main chain: no call
-- lowers it.
use btc_parachain.Prelude.{
  ℕ, ◌+◌, ◌≤◌, ◌<◌, ◌^◌, ◌≡◌, sym, ap, ◌∙◌, inl, inr, Bool-cases, ◌==◌, arith, Option-cases,
}
use btc_parachain.Prelude.Result.{Result}
use btc_parachain.BtcCore.{Error}
use btc_parachain.Containers.BTree
use btc_parachain.Bitcoin.Types.{BlockHeader, RichBlockHeader}
use btc_parachain.Bitcoin.Hash.{H256Le}
use btc_parachain.Relay.Storage.{Storage, get_block_chain_from_id}
use btc_parachain.Relay.Chains.{main_chain_id}
use btc_parachain.Relay.Dispatch.{store_verified_header}
use btc_parachain.Relay.Dispatch.Lengthen.{height, before, noted, ordered, taken_height, longer_run}
use btc_parachain.Relay.History.Listed.{IsListed, IsEntry-get, main_height, Moves}
use btc_parachain.Relay.History.Listed.Store.{
  forks-IsListed, noted_main, not_listed, ordered-Succeeds,
}

-- The best height is that of the main chain or one more.
abbrev pub IsLevel : Storage → Type 0
IsLevel s = (main_height s ≤ s.best_block_height) × (s.best_block_height ≤ main_height s + 1)

-- The best height does not fall, and stays level with the main chain.
abbrev pub Climbs : Storage → Storage → Type 0
Climbs s t = (s.best_block_height ≤ t.best_block_height) × IsLevel t

pub Climbs-refl : (s : Storage) → IsLevel s → Climbs s s
Climbs-refl s l = (omega arith, l)

Climbs-Moves : (s t : Storage) → IsLevel s → Moves s t → Climbs s t
Climbs-Moves s t l (inl (main, best)) =
    (omega (arith, best), (omega (arith, l.0, main, best), omega (arith, l.1, main, best)))
Climbs-Moves s t l (inr (over, main)) =
    (omega (arith, l.1, over), (omega (arith, main), omega (arith, main)))

module _ (calls : ℕ) (hash : H256Le) (h : BlockHeader) (prev : RichBlockHeader) (s : Storage)
    (k : IsListed calls s) (small : calls + 2 < 2 ^ 32) (level : IsLevel s)
    (above : 1 ≤ prev.block_height) (no_wrap : prev.block_height + 1 < 2 ^ 32) where
  -- The chain of a block that is extended under the id of the main chain is the main chain.
  before_main :
      (before hash h prev s).max_height ≡ prev.block_height
      → (before hash h prev s).chain_id ≡ main_chain_id
      → main_height s ≡ prev.block_height
  before_main on_tip on_main = elim (IsEntry-get calls s k prev.chain_ref).own [
    | inl own ↦
        let main : prev.chain_ref ≡ main_chain_id = sym own ∙ on_main in
        ap (λ id. (get_block_chain_from_id id s).max_height) (sym main) ∙ on_tip
    | inr (main, low) ↦ absurd (omega (arith, low, on_tip, above))
  ]

  ordered_main :
      (before hash h prev s).chain_id ≡ main_chain_id
      → main_height (ordered hash h prev s) ≡ main_height s
  ordered_main on_main =
      ap (λ (r : Result Error (Unit {0}) × Storage). main_height r.1)
        (not_listed calls hash h prev s k small on_main)
      ∙ noted_main calls hash h prev s k small

  extends-Climbs :
      (before hash h prev s).max_height ≡ prev.block_height
      → Climbs s (store_verified_header hash h prev s).1
  extends-Climbs on_tip =
      let noted_level = noted_main calls hash h prev s k small in
      let (done, listed, moves) = ordered-Succeeds calls hash h prev s k small on_tip no_wrap in
      let climbs =
        Climbs-Moves (noted hash h prev s) (ordered hash h prev s)
          (omega (arith, noted_level, level.0), omega (arith, noted_level, level.1)) moves in
      elim (Option-cases (BTree.get (height hash h prev s) (before hash h prev s).chain)) [
        | inr (old, e) ↦ rw (taken_height hash h prev s on_tip old e) (Climbs-refl s level)
        | inl free ↦ elim (longer_run hash h prev s on_tip free) [
          | inl e ↦ rw e climbs
          | inr (inl e) ↦ rw e climbs
          | inr (inr (on_main, e)) ↦
              let same = ordered_main on_main in
              let from = before_main on_tip on_main in
              rw e (
                omega (arith, level.1, from, no_wrap),
                (omega (arith, same, from, no_wrap), omega (arith, same, from, no_wrap)),
              )
        ]
      ]

  -- Storing a header above the height 0 and below the last u32 height lowers nothing.
  pub store_verified_header-Climbs : Climbs s (store_verified_header hash h prev s).1
  store_verified_header-Climbs =
      elim (Bool-cases ((before hash h prev s).max_height == prev.block_height)) [
        | inl tip ↦ extends-Climbs (ground arith)
        | inr other ↦
            let (done, listed, moves) =
              forks-IsListed calls hash h prev s k small (λ same. absurd (ground (arith, same))) in
            Climbs-Moves s (store_verified_header hash h prev s).1 level moves
      ]
