-- ===== src/Security.antt =====
-- crates/security/src/lib.rs: the status of the parachain, and the reads of it.
use Prim.Native.String.{String}
use btc_parachain.Prelude.{ℕ, Bool, true, false, Option, none, some}
use btc_parachain.Bitcoin.Hash.{H256Le}
use btc_parachain.Containers.BTree.{BTreeSet, contains}

pub data StatusCode : Type 0 where
  running error shutdown : StatusCode

-- `ErrorCode`; `no_error` is `ErrorCode::None`.
pub data ErrorCode : Type 0 where
  no_error no_data_btc_relay invalid_btc_relay oracle_offline liquidation : ErrorCode

pub data ProposalStatus : Type 0 where
  pending accepted rejected : ProposalStatus

-- `error_code as u8`
abbrev pub error_number : ErrorCode → ℕ
error_number no_error = 0
error_number no_data_btc_relay = 1
error_number invalid_btc_relay = 2
error_number oracle_offline = 3
error_number liquidation = 4

-- Account identifiers are numbers, in the order by which the sets are sorted.
pub record StatusUpdate : Type 0 where
  pub new_status_code : StatusCode
  pub old_status_code : StatusCode
  pub add_errors : BTreeSet
  pub remove_errors : BTreeSet
  pub time : ℕ
  pub proposal_status : ProposalStatus
  pub msg : String
  pub btc_block_hash : H256Le
  pub votes_yes : BTreeSet
  pub votes_no : BTreeSet

pub record StakedRelayer : Type 0 where
  pub stake : ℕ

abbrev pub staked_relayer_vote_threshold : ℕ
staked_relayer_vote_threshold = 0

abbrev pub staked_relayer_stake : ℕ
staked_relayer_stake = 10

pub record SecurityStorage : Type 0 where
  pub parachain_status : StatusCode
  pub errors : BTreeSet
  pub status_counter : ℕ
  pub nonce : ℕ
  pub staked_relayers : ℕ → Option StakedRelayer
  pub status_updates : ℕ → Option StatusUpdate
  pub theft_reports : H256Le → Option BTreeSet

-- The derived `PartialEq` of `StatusCode`.
abbrev pub eq_status : StatusCode → StatusCode → Bool
eq_status running running = true
eq_status error error = true
eq_status shutdown shutdown = true
eq_status _ _ = false

unfoldable pub check_parachain_status : StatusCode → SecurityStorage → Bool
check_parachain_status status_code s = eq_status status_code s.parachain_status

unfoldable pub check_parachain_error : ErrorCode → SecurityStorage → Bool
check_parachain_error error_code s = contains (error_number error_code) s.errors

unfoldable pub check_relayer_registered : ℕ → SecurityStorage → Bool
check_relayer_registered relayer s = elim (s.staked_relayers relayer) [
  | none ↦ false
  | some _ ↦ true
]
