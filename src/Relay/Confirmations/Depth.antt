-- ===== src/Relay/Confirmations/Depth.antt =====
-- What `check_confirmations` of crates/btc-relay/src/lib.rs demands, and where its sums wrap.
use btc_parachain.Prelude.{ℕ, ◌+◌, ◌-◌, ◌^◌, ◌≤◌, ◌<◌, ◌≡◌, Bool, leb, ltb, if◌then◌else◌, arith}
use btc_parachain.Prelude.Result.{ok, err}
use btc_parachain.BtcCore.{Error, confirmations, insufficient_stable_confirmations}
use btc_parachain.Relay.Confirmations.{check_confirmations, stable_transaction_confirmations}

-- The confirmations that a call has to show: those that it asks for, and six unless it is insecure.
abbrev pub demanded : ℕ → Bool → ℕ
demanded req_confs insecure =
    if insecure
    then req_confs
    else if ltb req_confs stable_transaction_confirmations
    then stable_transaction_confirmations
    else req_confs

abbrev pub refusal : ℕ → Bool → Error
refusal req_confs insecure =
    if insecure
    then confirmations
    else if ltb req_confs stable_transaction_confirmations
    then insufficient_stable_confirmations
    else confirmations

-- Where the sum of the transaction's height and the demanded confirmations is below 2 ^ 32, the
-- check passes exactly if the main chain is that high; otherwise it fails with the error that names
-- the demand.
pub check_confirmations_lem :
    (main_chain_height req_confs tx_block_height : ℕ) (insecure : Bool)
    → tx_block_height + demanded req_confs insecure < 2 ^ 32
    → check_confirmations main_chain_height req_confs tx_block_height insecure ≡ (
        if leb (tx_block_height + demanded req_confs insecure) main_chain_height
        then ok tt
        else err (refusal req_confs insecure))
unfolding check_confirmations
check_confirmations_lem h r t insecure fits = ground arith

-- With a demand of 2 ^ 32 - 1 confirmations every transaction of a block from height 1 up to the
-- best height, which is below 2 ^ 32, passes, secure or not: the sum wraps around to the height
-- before.
pub check_confirmations_wraps :
    (main_chain_height tx_block_height : ℕ) (insecure : Bool)
    → main_chain_height < 2 ^ 32
    → 0 < tx_block_height
    → tx_block_height ≤ main_chain_height
    → check_confirmations main_chain_height (2 ^ 32 - 1) tx_block_height insecure ≡ ok tt
unfolding check_confirmations
check_confirmations_wraps h t insecure small positive within = ground arith
