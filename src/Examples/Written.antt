-- ===== src/Examples/Written.antt =====
-- Examples of transactions that are written, read back and accepted as payments.
use btc_parachain.Prelude.{
  ◌≡◌, refl, inl, inr, none, [], ◌∷◌, replicate, false, List, arith, eq_bytes,
}
use btc_parachain.Prelude.Int.{pos}
use btc_parachain.Prelude.Result.{ok}
use btc_parachain.Bitcoin.Types.{TransactionInput, TransactionOutput}
use btc_parachain.Bitcoin.Hash
use btc_parachain.Bitcoin.Bytes.Sequence.{AllGood}
use btc_parachain.Bitcoin.Script.Address.{key_hash}
use btc_parachain.Bitcoin.Tx.{parse_transaction}
use btc_parachain.Bitcoin.Tx.Written.{IsPlain, IsPayable}
use btc_parachain.Bitcoin.Tx.RoundTrip.{
  write_transaction, transaction_of, parse_transaction-write_transaction,
}
use btc_parachain.Bitcoin.Tx.Segwit.{
  write_with_witnesses, witnessed, parse_transaction-write_with_witnesses,
}
use btc_parachain.Relay.Dispatch.{signed_by, validate_transaction}
use btc_parachain.Relay.Dispatch.Paid.{payment_outputs, validate_transaction_accepts}
use btc_parachain.Examples.Data.{hash_of, two_chains}

abbrev spent : TransactionInput
spent = record {
  previous_hash = hash_of 4;
  previous_index = 1;
  coinbase = false;
  height = none;
  script = replicate 3 7;
  sequence = 5;
  witness = none;
}

not_coinbase : Hash.eq (hash_of 4) Hash.zero ≡ false
unfolding Hash.eq eq_bytes
not_coinbase = refl

spent-IsPlain : IsPlain spent
spent-IsPlain = record {
  hash_width = refl;
  spends = not_coinbase;
  no_coinbase = refl;
  no_height = refl;
  no_witness = refl;
  small_index = omega arith;
  small_script = omega arith;
  small_sequence = omega arith;
}

abbrev paid : List TransactionOutput
paid = payment_outputs key_hash (replicate 20 5) (7 ∷ 8 ∷ []) 90 3 []

paid-IsPayable : AllGood IsPayable paid
paid-IsPayable = (
  record { amount = 90; is_amount = refl; small_amount = omega arith; small_script = omega arith },
  (
    record { amount = 3; is_amount = refl; small_amount = omega arith; small_script = omega arith },
    tt,
  ),
)

parse_transaction-write_transaction_example :
    parse_transaction (write_transaction 1 (spent ∷ []) paid 600000000)
    ≡ ok (transaction_of 1 (spent ∷ []) paid 600000000)
parse_transaction-write_transaction_example =
    parse_transaction-write_transaction 1 (spent ∷ []) paid 600000000 (inl refl) (omega arith)
      (omega arith) (spent-IsPlain, tt) (omega arith) paid-IsPayable (omega arith)

parse_transaction-write_with_witnesses_example :
    parse_transaction (write_with_witnesses 2 (spent ∷ []) paid ((1 ∷ 2 ∷ 3 ∷ []) ∷ []) 77)
    ≡ ok (transaction_of 2 (witnessed (spent ∷ []) ((1 ∷ 2 ∷ 3 ∷ []) ∷ [])) paid 77)
parse_transaction-write_with_witnesses_example =
    parse_transaction-write_with_witnesses 2 (spent ∷ []) paid ((1 ∷ 2 ∷ 3 ∷ []) ∷ []) 77 (inr refl)
      (omega arith) (spent-IsPlain, tt) (omega arith) paid-IsPayable refl
      ((omega arith, (omega arith, (omega arith, (omega arith, tt)))), tt) (omega arith)

validate_transaction_accepts_example :
    validate_transaction
      (signed_by 1)
      (write_transaction 1 (spent ∷ []) paid 600000000)
      (pos 80)
      (replicate 20 5)
      (7 ∷ 8 ∷ [])
      two_chains
    ≡ (ok tt, two_chains)
validate_transaction_accepts_example =
    validate_transaction_accepts key_hash (replicate 20 5) (7 ∷ 8 ∷ []) 90 3 [] (pos 80) refl
      (omega arith) (omega arith) 1 1 600000000 (spent ∷ []) two_chains (inl refl) (omega arith)
      (omega arith) (spent-IsPlain, tt) (omega arith) paid-IsPayable (omega arith)
