-- ===== src/Relay/Dispatch/Paid.antt =====
-- The payments that `validate_transaction` of crates/btc-relay/src/lib.rs is meant to accept.
use btc_parachain.Prelude.{
  ℕ, ◌^◌, ◌≤◌, ◌<◌, ◌≡◌, true, refl, List, ◌∷◌, leb, length, eq_bytes_refl, arith,
}
use btc_parachain.Prelude.Int.{ℤ, pos, leb_ℤ, ◌≤ℤ◌}
use btc_parachain.Prelude.Result.{ok}
use btc_parachain.Bitcoin.Types.{TransactionInput, TransactionOutput, Transaction}
use btc_parachain.Bitcoin.Bytes.Sequence.{AllGood}
use btc_parachain.Bitcoin.Script.{code_of, op_return, extract_op_return_data}
use btc_parachain.Bitcoin.Script.Address.{
  AddressKind, script_of, HasWidth, extract_address_hash-script_of, extract_op_return_data_lem,
}
use btc_parachain.Bitcoin.Tx
use btc_parachain.Bitcoin.Tx.Written.{IsPlain, IsPayable}
use btc_parachain.Bitcoin.Tx.RoundTrip.{
  IsVersion, write_transaction, transaction_of, parse_transaction-write_transaction,
}
use btc_parachain.Relay.Storage.{Storage}
use btc_parachain.Relay.Dispatch.{signed_by, validate_transaction, parse_transaction}

module _ (kind : AddressKind) (address id : List ℕ) (amount burned : ℕ)
    (more : List TransactionOutput) where
  -- A payment to the address, then the identifier behind OP_RETURN and its size, then other outputs.
  abbrev pub payment_outputs : List TransactionOutput
  payment_outputs =
      record { value = pos amount; script = script_of kind address }
      ∷ record { value = pos burned; script = code_of op_return ∷ length id ∷ id }
      ∷ more

  module _ (value : ℤ) (wide : HasWidth kind address) (short : length id ≤ 81)
      (enough : value ≤ℤ pos amount) where
    parsed_payment_accepted :
        (account : ℕ) (raw_tx : List ℕ) (tx : Transaction) (s : Storage)
        → Tx.parse_transaction raw_tx ≡ ok tx
        → tx.outputs ≡ payment_outputs
        → validate_transaction (signed_by account) raw_tx value address id s ≡ (ok tt, s)
    unfolding validate_transaction parse_transaction
    parsed_payment_accepted account raw_tx tx s parsed outs =
        let two : leb 2 (length payment_outputs) ≡ true = ground arith in
        let pays : leb_ℤ value (pos amount) ≡ true = ground (arith, enough) in
        let same_id : extract_op_return_data (code_of op_return ∷ length id ∷ id) ≡ ok id =
          rw (extract_op_return_data_lem (length id) id) (ground (arith, short)) in
        rw
          (
            parsed,
            outs,
            two,
            pays,
            extract_address_hash-script_of kind address wide,
            eq_bytes_refl address,
            same_id,
            eq_bytes_refl id,
          )
          refl

    -- The bytes of a payment are accepted in a signed call, and nothing changes: a transaction of
    -- version 1 or 2 with a lock below 2 ^ 32, whose first output pays at least the value to the
    -- address, a key or script hash of 20 bytes or a witness program of at most 40, and whose second has
    -- the identifier of at most 81 bytes behind OP_RETURN and its size. There are at least one and
    -- fewer than 2 ^ 16 inputs, each of which spends an output: it names a previous hash of 32 bytes
    -- that is not zero, is no coinbase, and has no height and no witness, its index and its sequence
    -- number are below 2 ^ 32, and its script has fewer than 2 ^ 16 bytes. There are fewer than 2 ^ 16
    -- outputs, of values that are not negative and below 2 ^ 63, with scripts of at most 10000 bytes.
    pub validate_transaction_accepts :
        (account version lock : ℕ) (inputs : List TransactionInput) (s : Storage)
        → IsVersion version
        → 0 < length inputs
        → length inputs < 2 ^ 16
        → AllGood IsPlain inputs
        → length payment_outputs < 2 ^ 16
        → AllGood IsPayable payment_outputs
        → lock < 2 ^ 32
        → validate_transaction
            (signed_by account)
            (write_transaction version inputs payment_outputs lock)
            value
            address
            id
            s
          ≡ (ok tt, s)
    validate_transaction_accepts account version lock inputs s known some_input few good few' good'
          small =
        parsed_payment_accepted account (write_transaction version inputs payment_outputs lock)
          (transaction_of version inputs payment_outputs lock) s
          (parse_transaction-write_transaction version inputs payment_outputs lock known some_input
            few good few' good' small)
          refl
