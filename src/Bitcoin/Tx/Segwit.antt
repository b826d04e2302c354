-- ===== src/Bitcoin/Tx/Segwit.antt =====
-- `parse_transaction` of crates/bitcoin/src/parser.rs reads back what is written of a transaction with
-- witnesses.
use mathlib.Core.List.{append_assoc, append-nil}
use btc_parachain.Prelude.{ℕ, ◌^◌, ◌<◌, ◌≡◌, refl, true, List, [], ◌∷◌, ◌++◌, length, arith}
use btc_parachain.Prelude.Int.{ℤ, pos}
use btc_parachain.Prelude.Words.{to_le_bytes}
use btc_parachain.Prelude.Result.{ok}
use btc_parachain.Bitcoin.Types.{TransactionInput, TransactionOutput}
use btc_parachain.Bitcoin.Bytes.{parse, parse_uint, parse_int, parse_vec}
use btc_parachain.Bitcoin.Bytes.Written.{at, parse-at, parse_uint-at}
use btc_parachain.Bitcoin.Bytes.Sequence.{parse_int-at, AllGood, write_all, write_vec, parse_vec-at}
use btc_parachain.Bitcoin.Tx.{
  with_witness, parse_witnesses, parse_inputs, parse_witness_part, parse_transaction,
}
use btc_parachain.Bitcoin.Tx.Written.{write_input, write_output, IsPlain, IsPayable}
use btc_parachain.Bitcoin.Tx.RoundTrip.{
  IsVersion, version_lem, inputs-at, outputs-at, transaction_of,
}

abbrev pub IsByte : ℕ → Type 0
IsByte b = b < 256

-- A witness as the parser takes it: its bytes behind their number.
abbrev pub write_witness : List ℕ → List ℕ
write_witness = write_vec (to_le_bytes 1)

abbrev pub IsWitness : List ℕ → Type 0
IsWitness witness = (length witness < 2 ^ 16) × AllGood IsByte witness

witness-at :
    (witness : List ℕ)
    → IsWitness witness
    → (before rest : List ℕ)
    → parse (parse_vec (parse_uint 1)) (at before (write_witness witness ++ rest))
      ≡ ok (witness, at (before ++ write_witness witness) rest)
witness-at witness (few, bytes) before rest =
    parse-at (parse_vec (parse_uint 1)) witness before (write_witness witness) rest (
      parse_vec-at (parse_uint 1) (to_le_bytes 1) IsByte
        (λ b small before rest. parse_uint-at 1 b before rest (omega (arith, small))) witness before
        rest few bytes)

-- The inputs with their witnesses, in the same order.
abbrev pub witnessed : List TransactionInput → List (List ℕ) → List TransactionInput
witnessed [] witnesses = []
witnessed (i ∷ inputs) [] = i ∷ inputs
witnessed (i ∷ inputs) (w ∷ witnesses) = with_witness i w ∷ witnessed inputs witnesses

witnesses-at :
    (inputs : List TransactionInput) (witnesses : List (List ℕ)) (before rest : List ℕ)
    → length witnesses ≡ length inputs
    → AllGood IsWitness witnesses
    → parse_witnesses inputs (at before (write_all write_witness witnesses ++ rest))
      ≡ ok (witnessed inputs witnesses, at (before ++ write_all write_witness witnesses) rest)
unfolding parse_witnesses
witnesses-at [] [] before rest same good = rw (append-nil before) refl
witnesses-at [] (w ∷ witnesses) before rest same good = absurd (omega (arith, same))
witnesses-at (i ∷ inputs) [] before rest same good = absurd (omega (arith, same))
witnesses-at (i ∷ inputs) (w ∷ witnesses) before rest same (one, good) =
    let others = write_all write_witness witnesses in
    let first = witness-at w one before (others ++ rest) in
    let more =
      witnesses-at inputs witnesses (before ++ write_witness w) rest (omega (arith, same)) good in
    rw
      (
        append_assoc (write_witness w) others rest,
        first,
        more,
        append_assoc before (write_witness w) others,
      )
      refl

-- The mark of a transaction with witnesses: no inputs, and the flag 1.
abbrev pub segwit_mark : List ℕ
segwit_mark = 0 ∷ 1 ∷ []

marked_inputs-at :
    (version : ℤ) (inputs : List TransactionInput) (few : length inputs < 2 ^ 16)
    (good : AllGood IsPlain inputs) (before rest : List ℕ)
    → parse_inputs true version (at before (segwit_mark ++ (write_vec write_input inputs ++ rest)))
      ≡ ok (inputs, 1, at (before ++ segwit_mark ++ write_vec write_input inputs) rest)
unfolding parse_inputs to_le_bytes
marked_inputs-at version inputs few good before rest =
    let is = write_vec write_input inputs in
    let e₁ = inputs-at version [] (omega arith) tt before (1 ∷ (is ++ rest)) in
    let e₂ =
      parse-at (parse_uint 1) 1 (before ++ 0 ∷ []) (to_le_bytes 1 1) (is ++ rest)
        (parse_uint-at 1 1 (before ++ 0 ∷ []) (is ++ rest) (omega arith)) in
    let e₃ = inputs-at version inputs few good (before ++ segwit_mark) rest in
    let joined : before ++ 0 ∷ [] ++ 1 ∷ [] ≡ before ++ segwit_mark =
      append_assoc before (0 ∷ []) (1 ∷ []) in
    rw (e₁, e₂, joined, e₃) refl

abbrev pub write_with_witnesses :
    ℕ → List TransactionInput → List TransactionOutput → List (List ℕ) → ℕ → List ℕ
write_with_witnesses version inputs outputs witnesses lock =
    to_le_bytes 4 version
    ++ (segwit_mark
        ++ (write_vec write_input inputs
            ++ (write_vec write_output outputs
                ++ (write_all write_witness witnesses ++ (to_le_bytes 4 lock ++ [])))))

-- What is written of a transaction with one witness for each input is read back, each witness with
-- its input. The witnesses are sequences of fewer than 2 ^ 16 bytes: version 1 or 2, fewer than 2 ^ 16
-- inputs, fewer than 2 ^ 16 outputs, and a lock below 2 ^ 32.
-- Each input spends an output: it names a previous hash of 32 bytes that is not zero, is no coinbase,
-- and has no height and no witness of its own, its index and its sequence number are below 2 ^ 32, and its script
-- has fewer than 2 ^ 16 bytes. The outputs have values that are not negative and below 2 ^ 63, and
-- scripts of at most 10000 bytes.
pub parse_transaction-write_with_witnesses :
    (version : ℕ) (inputs : List TransactionInput) (outputs : List TransactionOutput)
    (witnesses : List (List ℕ)) (lock : ℕ)
    → IsVersion version
    → length inputs < 2 ^ 16
    → AllGood IsPlain inputs
    → length outputs < 2 ^ 16
    → AllGood IsPayable outputs
    → length witnesses ≡ length inputs
    → AllGood IsWitness witnesses
    → lock < 2 ^ 32
    → parse_transaction (write_with_witnesses version inputs outputs witnesses lock)
      ≡ ok (transaction_of version (witnessed inputs witnesses) outputs lock)
unfolding parse_transaction parse_witness_part
parse_transaction-write_with_witnesses version inputs outputs witnesses lock known few good few'
      good' same good'' small =
    let (narrow, accepted, allowed, signed) = version_lem version known in
    let v = to_le_bytes 4 version in
    let is = write_vec write_input inputs in
    let os = write_vec write_output outputs in
    let ws = write_all write_witness witnesses in
    let l = to_le_bytes 4 lock in
    let r₄ = l ++ [] in
    let r₃ = ws ++ r₄ in
    let r₂ = os ++ r₃ in
    let r₁ = segwit_mark ++ (is ++ r₂) in
    let b₂ = v ++ segwit_mark ++ is in
    let e₁ =
      parse-at (parse_int 4) (pos version) [] v r₁
        (parse_int-at 4 (pos version) version [] r₁ narrow signed) in
    let e₂ = marked_inputs-at (pos version) inputs few good v r₂ in
    let e₃ = outputs-at outputs few' good' b₂ r₃ in
    let e₄ = witnesses-at inputs witnesses (b₂ ++ os) r₄ same good'' in
    let e₅ =
      parse-at (parse_uint 4) lock (b₂ ++ os ++ ws) l []
        (parse_uint-at 4 lock (b₂ ++ os ++ ws) [] (omega (arith, small))) in
    rw (e₁, accepted, allowed, e₂, e₃, e₄, e₅) refl
