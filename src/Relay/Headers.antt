-- ===== src/Relay/Headers.antt =====
-- The checks of a new header in crates/btc-relay/src/lib.rs: `verify_block_header` and the target
-- that it expects.
pub mod Acceptance
pub mod Target
use btc_parachain.Prelude.{
  ℕ, ◌-◌, ◌*◌, ◌/◌, ◌%◌, ◌^◌, ◌&&◌, not, Bool, ltb, leb, ◌==◌, if◌then◌else◌,
}
use btc_parachain.Prelude.Words.{add32, sub32, sub64}
use btc_parachain.Prelude.Result.{Result, ok, err, panic, map_err, fail_if, ◌>>=◌, ◌>>◌}
use btc_parachain.Libraries.{Libraries}
use btc_parachain.BtcCore.{Error, duplicate_block, prev_block, low_diff, diff_target_header}
use btc_parachain.Bitcoin.Types.{RawBlockHeader, BlockHeader, RichBlockHeader}
use btc_parachain.Bitcoin.Hash
use btc_parachain.Bitcoin.Header.{parse_block_header}
use btc_parachain.Relay.Storage.{
  Storage, get_block_chain_from_id, get_block_header_from_hash, get_block_header_from_height,
  block_header_exists,
}

abbrev pub difficulty_adjustment_interval : ℕ
difficulty_adjustment_interval = 2016

abbrev pub target_timespan : ℕ
target_timespan = 1209600

abbrev pub target_timespan_divisor : ℕ
target_timespan_divisor = 4

abbrev pub unrounded_max_target : ℕ
unrounded_max_target = 2 ^ 224 - 1

unfoldable pub get_last_retarget_time : ℕ → ℕ → Storage → Result Error ℕ
get_last_retarget_time chain_ref block_height s = do
  last_retarget_header ←
      get_block_header_from_height (get_block_chain_from_id chain_ref s)
        (sub32 block_height difficulty_adjustment_interval) s
  ok last_retarget_header.block_header.timestamp

-- `(prev.timestamp - last_retarget_time) as u32`, and the timespan that the code takes for it.
unfoldable pub actual_timespan : ℕ → ℕ → ℕ
actual_timespan timestamp last_retarget_time =
    if ltb (sub64 timestamp last_retarget_time % 2 ^ 32) (target_timespan / target_timespan_divisor)
    then target_timespan / target_timespan_divisor
    else target_timespan * target_timespan_divisor

-- `U256` multiplication panics on overflow.
unfoldable pub mul_u256 : {E : Type 0} → ℕ → ℕ → Result E ℕ
mul_u256 a b = if ltb (a * b) (2 ^ 256) then ok (a * b) else panic

-- The last test against `UNROUNDED_MAX_TARGET` is an expression whose value is dropped.
unfoldable pub compute_new_target : RichBlockHeader → ℕ → Storage → Result Error ℕ
compute_new_target prev_block_header block_height s = do
  last_retarget_time ← get_last_retarget_time prev_block_header.chain_ref block_height s
  product ←
      mul_u256 (actual_timespan prev_block_header.block_header.timestamp last_retarget_time)
        prev_block_header.block_header.target
  let new_target = product / target_timespan
  let dropped = if ltb unrounded_max_target new_target then unrounded_max_target else new_target
  ok new_target

unfoldable pub expected_target : RichBlockHeader → ℕ → Storage → Result Error ℕ
expected_target prev_block_header block_height s =
    if leb 2016 block_height && block_height % difficulty_adjustment_interval == 0
    then compute_new_target prev_block_header block_height s
    else ok prev_block_header.block_header.target

unfoldable pub verify_block_header : Libraries → RawBlockHeader → Storage → Result Error BlockHeader
verify_block_header lib raw_block_header s = do
  basic_block_header ← parse_block_header lib raw_block_header
  let block_header_hash = Hash.sha256d_le lib raw_block_header
  fail_if (block_header_exists block_header_hash s) duplicate_block
  prev_block_header ←
      map_err prev_block (get_block_header_from_hash basic_block_header.hash_prev_block s)
  fail_if (not (ltb (Hash.as_u256 block_header_hash) basic_block_header.target)) low_diff
  target ← expected_target prev_block_header (add32 prev_block_header.block_height 1) s
  fail_if (not (basic_block_header.target == target)) diff_target_header
  ok basic_block_header
