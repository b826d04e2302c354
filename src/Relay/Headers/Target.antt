-- ===== src/Relay/Headers/Target.antt =====
-- The retarget of crates/btc-relay/src/lib.rs (`compute_new_target`): its two outcomes, and the cap
-- that it computes and drops.
use btc_parachain.Prelude.{ℕ, ◌*◌, ◌/◌, ◌%◌, ◌^◌, ◌≤◌, ◌<◌, ◌≡◌, some, ltb, if◌then◌else◌, arith}
use btc_parachain.Prelude.Words.{sub32, sub64}
use btc_parachain.Prelude.Result.{ok}
use btc_parachain.Containers.BTree
use btc_parachain.Bitcoin.Types.{RichBlockHeader}
use btc_parachain.Bitcoin.Hash.{H256Le}
use btc_parachain.Relay.Storage.{Storage, get_block_chain_from_id}
use btc_parachain.Relay.Headers.{
  compute_new_target, get_last_retarget_time, actual_timespan, mul_u256, unrounded_max_target,
}

module _ (prev : RichBlockHeader) (block_height : ℕ) (s : Storage) (hash : H256Le)
    (last : RichBlockHeader)
    (in_chain : BTree.get (sub32 block_height 2016) (get_block_chain_from_id prev.chain_ref s).chain
      ≡ some hash)
    (stored : s.block_headers hash ≡ some last)
    (fits : 4838400 * prev.block_header.target < 2 ^ 256) where
  -- Where the chain of the previous block has a stored header 2016 blocks back, and the product fits
  -- in 256 bits, the new target is a quarter of the old one if less than a quarter of the timespan has
  -- passed since, and four times the old one otherwise. No other value comes out.
  pub compute_new_target_lem :
      compute_new_target prev block_height s
      ≡ ok (
          if ltb (sub64 prev.block_header.timestamp last.block_header.timestamp % 2 ^ 32) 302400
          then prev.block_header.target / 4
          else prev.block_header.target * 4)
  unfolding compute_new_target get_last_retarget_time actual_timespan mul_u256
  compute_new_target_lem = ground arith

  -- The new target is not capped: where the chain of the previous block has a stored header 2016
  -- blocks back, the product fits in 256 bits, the old target is above a quarter of the maximum,
  -- and a quarter of the timespan has passed, a target above the maximum is returned.
  pub compute_new_target_uncapped :
      unrounded_max_target < 4 * prev.block_header.target
      → 302400 ≤ sub64 prev.block_header.timestamp last.block_header.timestamp % 2 ^ 32
      → (t : ℕ) × (compute_new_target prev block_height s ≡ ok t) × (unrounded_max_target < t)
  compute_new_target_uncapped high late =
      (prev.block_header.target * 4, ground (arith, compute_new_target_lem), omega arith)
