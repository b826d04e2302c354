-- ===== src/Relay/Dispatch/Payment.antt =====
-- What an accepted `validate_transaction` of crates/btc-relay/src/lib.rs shows.
use btc_parachain.Prelude.{
  ℕ, ◌≡◌, true, some, inl, inr, List, length, arith, get_elem?, get_elem?-lt, leb, leb→le, eq_bytes,
  eq_bytes_sound,
}
use btc_parachain.Prelude.Int.{ℤ, leb_ℤ}
use btc_parachain.Prelude.Result.{ok, Result-cases}
use btc_parachain.Bitcoin.Types.{Transaction, TransactionOutput}
use btc_parachain.Bitcoin.Script.{extract_address_hash, extract_op_return_data}
use btc_parachain.Bitcoin.Tx
use btc_parachain.Relay.Storage.{Storage}
use btc_parachain.Relay.Dispatch.{Origin, validate_transaction, parse_transaction}

-- The transaction pays at least the value to the address with its first output, and has the
-- identifier in its second one.
pub record IsPayment (raw_tx : List ℕ) (payment_value : ℤ)
    (recipient_btc_address op_return_id : List ℕ) : Type 0 where
  pub transaction : Transaction
  pub payment : TransactionOutput
  pub data_output : TransactionOutput
  pub is_parsed : Tx.parse_transaction raw_tx ≡ ok transaction
  pub is_first : get_elem? transaction.outputs 0 ≡ some payment
  pub is_second : get_elem? transaction.outputs 1 ≡ some data_output
  pub pays : leb_ℤ payment_value payment.value ≡ true
  pub to_address : extract_address_hash payment.script ≡ ok recipient_btc_address
  pub has_id : extract_op_return_data data_output.script ≡ ok op_return_id

module _ (origin : Origin) (raw_tx : List ℕ) (payment_value : ℤ)
    (recipient_btc_address op_return_id : List ℕ) (s : Storage) where
  pub validate_transaction_reads :
      (validate_transaction origin raw_tx payment_value recipient_btc_address op_return_id s).1 ≡ s
  unfolding validate_transaction
  validate_transaction_reads = ground arith

  module _
      (passed : (validate_transaction origin raw_tx payment_value recipient_btc_address op_return_id
          s).0
        ≡ ok tt) where
    parsed : (tx : Transaction) × (Tx.parse_transaction raw_tx ≡ ok tx)
    unfolding validate_transaction parse_transaction
    parsed = elim (Result-cases (Tx.parse_transaction raw_tx)) [
      | inl (tx, e) ↦ (tx, e)
      | inr stop ↦ absurd (ground arith)
    ]

    outputs_of :
        (tx : Transaction)
        → Tx.parse_transaction raw_tx ≡ ok tx
        → (o₀ : TransactionOutput) × (o₁ : TransactionOutput) × (get_elem? tx.outputs 0 ≡ some o₀)
          × (get_elem? tx.outputs 1 ≡ some o₁)
    unfolding validate_transaction parse_transaction
    outputs_of tx e =
        let enough : leb 2 (length tx.outputs) ≡ true = ground arith in
        let (o₀, a) = get_elem?-lt tx.outputs 0 (omega (arith, leb→le _ _ enough)) in
        let (o₁, b) = get_elem?-lt tx.outputs 1 (omega (arith, leb→le _ _ enough)) in (o₀, o₁, a, b)

    -- An accepted transaction parses, has at least two outputs, pays at least the value with the first
    -- one to the address, and has the identifier in the second one; the storage is as before.
    pub validate_transaction-IsPayment :
        IsPayment raw_tx payment_value recipient_btc_address op_return_id
        × ((validate_transaction origin raw_tx payment_value recipient_btc_address op_return_id s).1
            ≡ s)
    unfolding validate_transaction parse_transaction
    validate_transaction-IsPayment =
        let (tx, e) = parsed in
        let (o₀, o₁, a, b) = outputs_of tx e in
        elim (Result-cases (extract_address_hash o₀.script)) [
          | inr stop ↦ absurd (ground arith)
          | inl (address, f) ↦ elim (Result-cases (extract_op_return_data o₁.script)) [
            | inr stop ↦ absurd (ground arith)
            | inl (id, g) ↦
                let same_address : eq_bytes address recipient_btc_address ≡ true = ground arith in
                let same_id : eq_bytes id op_return_id ≡ true = ground arith in
                let address_eq : address ≡ recipient_btc_address =
                  eq_bytes_sound _ _ same_address in
                let id_eq : id ≡ op_return_id = eq_bytes_sound _ _ same_id in
                (
                  record {
                    transaction = tx;
                    payment = o₀;
                    data_output = o₁;
                    is_parsed = e;
                    is_first = a;
                    is_second = b;
                    pays = ground arith;
                    to_address = rw (← address_eq) f;
                    has_id = rw (← id_eq) g;
                  },
                  ground arith,
                )
          ]
        ]
