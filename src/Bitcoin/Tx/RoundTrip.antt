-- ===== src/Bitcoin/Tx/RoundTrip.antt =====
-- `parse_transaction` of crates/bitcoin/src/parser.rs reads back what is written of a transaction,
-- without witnesses.
use Prim.Native.Nat.{bit_and}
use mathlib.Core.List.{append-nil}
use btc_parachain.Prelude.{
  ℕ, ◌^◌, ◌<◌, ◌≡◌, ◌⊎◌, inl, inr, refl, sym, ap, ◌∙◌, true, false, not, ◌&&◌, none, some, List, [],
  ◌++◌, length, ltb, ◌==◌, if◌then◌else◌, arith,
}
use btc_parachain.Prelude.Int.{ℤ, pos, eq_ℤ, to_signed}
use btc_parachain.Prelude.Words.{to_le_bytes}
use btc_parachain.Prelude.Result.{ok}
use btc_parachain.Bitcoin.Types.{TransactionInput, TransactionOutput, Transaction}
use btc_parachain.Bitcoin.Bytes.{parse, parse_uint, parse_int, parse_vec}
use btc_parachain.Bitcoin.Bytes.Written.{at, parse-at, parse_uint-at}
use btc_parachain.Bitcoin.Bytes.Sequence.{parse_int-at, AllGood, write_vec, parse_vec-at}
use btc_parachain.Bitcoin.Tx.{
  serialize_transaction_no_witness, parse_input, parse_output, parse_inputs, parse_witness_part,
  parse_transaction,
}
use btc_parachain.Bitcoin.Tx.Written.{
  write_input, write_output, IsPlain, IsPayable, parse_input-at, parse_output-at, assoc₃,
}

-- The versions that are accepted, and what the parser tests of them.
abbrev pub IsVersion : ℕ → Type 0
IsVersion version = (version ≡ 1) ⊎ (version ≡ 2)

pub version_lem :
    (version : ℕ)
    → IsVersion version
    → (version < 256 ^ 4)
      × ((not (eq_ℤ (pos version) (pos 1)) && not (eq_ℤ (pos version) (pos 2))) ≡ false)
      × ((bit_and version serialize_transaction_no_witness == 0) ≡ true)
      × (to_signed 32 version ≡ pos version)
version_lem version (inl one) = rw one (omega arith, refl, refl, refl)
version_lem version (inr two) = rw two (omega arith, refl, refl, refl)

module _ (version : ℤ) (inputs : List TransactionInput) (few : length inputs < 2 ^ 16)
    (good : AllGood IsPlain inputs) where
  pub inputs-at :
      (before rest : List ℕ)
      → parse (parse_vec (parse_input version)) (at before (write_vec write_input inputs ++ rest))
        ≡ ok (inputs, at (before ++ write_vec write_input inputs) rest)
  inputs-at before rest =
      parse-at (parse_vec (parse_input version)) inputs before (write_vec write_input inputs) rest (
        parse_vec-at (parse_input version) write_input IsPlain (parse_input-at version) inputs
          before rest few good)

  plain_inputs-at :
      (before rest : List ℕ)
      → 0 < length inputs
      → parse_inputs true version (at before (write_vec write_input inputs ++ rest))
        ≡ ok (inputs, 0, at (before ++ write_vec write_input inputs) rest)
  unfolding parse_inputs
  plain_inputs-at before rest some_input =
      let other : (length inputs == 0) ≡ false = ground (arith, some_input) in
      rw (inputs-at before rest, other) refl

pub outputs-at :
    (outputs : List TransactionOutput) (few : length outputs < 2 ^ 16)
    (good : AllGood IsPayable outputs) (before rest : List ℕ)
    → parse (parse_vec parse_output) (at before (write_vec write_output outputs ++ rest))
      ≡ ok (outputs, at (before ++ write_vec write_output outputs) rest)
outputs-at outputs few good before rest =
    parse-at (parse_vec parse_output) outputs before (write_vec write_output outputs) rest (
      parse_vec-at parse_output write_output IsPayable parse_output-at outputs before rest few good)

-- The transaction that the parser makes of the parts.
abbrev pub transaction_of : ℕ → List TransactionInput → List TransactionOutput → ℕ → Transaction
transaction_of version inputs outputs lock = record {
  version = pos version;
  inputs = inputs;
  outputs = outputs;
  block_height = if ltb lock 500000000 then some lock else none;
  locktime = if ltb lock 500000000 then none else some lock;
}

abbrev pub write_transaction : ℕ → List TransactionInput → List TransactionOutput → ℕ → List ℕ
write_transaction version inputs outputs lock =
    to_le_bytes 4 version
    ++ write_vec write_input inputs
    ++ write_vec write_output outputs
    ++ to_le_bytes 4 lock

-- What is written of a transaction without witnesses is read back: version 1 or 2, at least one and
-- fewer than 2 ^ 16 inputs, fewer than 2 ^ 16 outputs, and a lock below 2 ^ 32, which the transaction
-- has for its block height if it is below 500000000, and for its time otherwise.
-- Each input spends an output: it names a previous hash of 32 bytes that is not zero, is no coinbase,
-- and has no height and no witness, its index and its sequence number are below 2 ^ 32, and its script
-- has fewer than 2 ^ 16 bytes. The outputs have values that are not negative and below 2 ^ 63, and
-- scripts of at most 10000 bytes.
pub parse_transaction-write_transaction :
    (version : ℕ) (inputs : List TransactionInput) (outputs : List TransactionOutput) (lock : ℕ)
    → IsVersion version
    → 0 < length inputs
    → length inputs < 2 ^ 16
    → AllGood IsPlain inputs
    → length outputs < 2 ^ 16
    → AllGood IsPayable outputs
    → lock < 2 ^ 32
    → parse_transaction (write_transaction version inputs outputs lock)
      ≡ ok (transaction_of version inputs outputs lock)
unfolding parse_transaction parse_witness_part
parse_transaction-write_transaction version inputs outputs lock known some_input few good few' good'
      small =
    let (narrow, accepted, allowed, signed) = version_lem version known in
    let v = to_le_bytes 4 version in
    let is = write_vec write_input inputs in
    let os = write_vec write_output outputs in
    let l = to_le_bytes 4 lock in
    let e₁ =
      parse-at (parse_int 4) (pos version) [] v (is ++ (os ++ (l ++ [])))
        (parse_int-at 4 (pos version) version [] (is ++ (os ++ (l ++ []))) narrow signed) in
    let e₂ = plain_inputs-at (pos version) inputs few good v (os ++ (l ++ [])) some_input in
    let e₃ = outputs-at outputs few' good' (v ++ is) (l ++ []) in
    let e₄ =
      parse-at (parse_uint 4) lock (v ++ is ++ os) l []
        (parse_uint-at 4 lock (v ++ is ++ os) [] (omega (arith, small))) in
    let whole : v ++ is ++ os ++ l ≡ v ++ (is ++ (os ++ (l ++ []))) =
      ap (λ k. v ++ is ++ os ++ k) (sym (append-nil l)) ∙ assoc₃ v is os (l ++ []) in
    rw (whole, e₁, accepted, allowed, e₂, e₃, e₄) refl
