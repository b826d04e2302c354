-- ===== src/Relay/Confirmations.antt =====
-- `check_confirmations` of crates/btc-relay/src/lib.rs.
pub mod Depth
use btc_parachain.Prelude.{ℕ, Bool, leb, ltb, if◌then◌else◌}
use btc_parachain.Prelude.Words.{add32}
use btc_parachain.Prelude.Result.{Result, ok, err}
use btc_parachain.BtcCore.{Error, confirmations, insufficient_stable_confirmations}

abbrev pub stable_transaction_confirmations : ℕ
stable_transaction_confirmations = 6

unfoldable pub check_confirmations : ℕ → ℕ → ℕ → Bool → Result Error (Unit {0})
check_confirmations main_chain_height req_confs tx_block_height insecure =
    if insecure
    then (if leb (add32 tx_block_height req_confs) main_chain_height
        then ok tt
        else err confirmations)
    else if ltb req_confs stable_transaction_confirmations
    then (if leb (add32 tx_block_height stable_transaction_confirmations) main_chain_height
        then ok tt
        else err insufficient_stable_confirmations)
    else (if leb (add32 tx_block_height req_confs) main_chain_height
        then ok tt
        else err confirmations)
