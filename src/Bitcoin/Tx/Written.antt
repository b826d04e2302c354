-- ===== src/Bitcoin/Tx/Written.antt =====
-- Transactions as Bitcoin writes them, and what `parse_transaction` of crates/bitcoin/src/parser.rs
-- reads from the bytes.
use mathlib.Core.List.{append_assoc}
use btc_parachain.Prelude.{
  ℕ, ◌+◌, ◌^◌, ◌≤◌, ◌<◌, ◌≡◌, refl, sym, ap, ◌∙◌, false, none, List, [], ◌++◌, length, ltb,
  length-append, arith,
}
use btc_parachain.Prelude.Int.{ℤ, pos, to_signed, from_signed}
use btc_parachain.Prelude.Words.{to_le_bytes, length-to_le_bytes}
use btc_parachain.Prelude.Result.{ok}
use btc_parachain.Bitcoin.Types.{Error, TransactionInput, TransactionOutput}
use btc_parachain.Bitcoin.Hash
use btc_parachain.Bitcoin.Hash.{H256Le}
use btc_parachain.Bitcoin.Bytes.{parse_uint, parse_int, parse_compact, parse_h256}
use btc_parachain.Bitcoin.Bytes.Compact.{compact_of, parse_compact-compact_of}
use btc_parachain.Bitcoin.Bytes.Written.{parse-at, parse_uint-at, parse_h256-at}
use btc_parachain.Bitcoin.Bytes.Sequence.{parse_int-at, read-at, slice_from-at}
use btc_parachain.Bitcoin.Tx.{
  parse_coinbase_height, parse_transaction_input, parse_input, parse_transaction_output,
  parse_output,
}

module _ {A : Type 0} where
  pub assoc₃ : (a b c rest : List A) → a ++ b ++ c ++ rest ≡ a ++ (b ++ (c ++ rest))
  assoc₃ a b c rest = append_assoc (a ++ b) c rest ∙ append_assoc a b (c ++ rest)

  assoc₅ :
      (a b c d e rest : List A)
      → a ++ b ++ c ++ d ++ e ++ rest ≡ a ++ (b ++ (c ++ (d ++ (e ++ rest))))
  assoc₅ a b c d e rest =
      append_assoc (a ++ b ++ c ++ d) e rest
      ∙ append_assoc (a ++ b ++ c) d (e ++ rest)
      ∙ assoc₃ a b c (d ++ (e ++ rest))

abbrev pub write_input : TransactionInput → List ℕ
write_input i =
    i.previous_hash.content
    ++ to_le_bytes 4 i.previous_index
    ++ compact_of (length i.script)
    ++ i.script
    ++ to_le_bytes 4 i.sequence

-- An input that spends an output, without a witness.
pub record IsPlain (i : TransactionInput) : Type 0 where
  pub hash_width : length i.previous_hash.content ≡ 32
  pub spends : Hash.eq i.previous_hash Hash.zero ≡ false
  pub no_coinbase : i.coinbase ≡ false
  pub no_height : i.height ≡ none
  pub no_witness : i.witness ≡ none
  pub small_index : i.previous_index < 2 ^ 32
  pub small_script : length i.script < 2 ^ 16
  pub small_sequence : i.sequence < 2 ^ 32

plain_eq :
    (i : TransactionInput)
    → IsPlain i
    → (record i { coinbase = false; height = none; witness = none }) ≡ i
plain_eq i good =
    ap (λ c. record i { coinbase = c; height = none; witness = none }) (sym good.no_coinbase)
    ∙ ap (λ h. record i { height = h; witness = none }) (sym good.no_height)
    ∙ ap (λ w. record i { witness = w }) (sym good.no_witness)

compact_short : (n : ℕ) → length (compact_of n) ≤ 3
compact_short n = ground (arith, length-to_le_bytes 2 n)

transaction_input_lem :
    (i : TransactionInput) (version : ℤ) (rest : List ℕ)
    → IsPlain i
    → parse_transaction_input (write_input i ++ rest) version ≡ ok (i, length (write_input i))
unfolding parse_transaction_input parse_coinbase_height
transaction_input_lem i version rest good =
    let hash = i.previous_hash.content in
    let index = to_le_bytes 4 i.previous_index in
    let size = compact_of (length i.script) in
    let sequence = to_le_bytes 4 i.sequence in
    let r₄ = sequence ++ rest in
    let r₃ = i.script ++ r₄ in
    let r₂ = size ++ r₃ in
    let r₁ = index ++ r₂ in
    let b₂ = hash ++ index in
    let b₃ = b₂ ++ size in
    let b₄ = b₃ ++ i.script in
    let small : length b₃ + length i.script < 2 ^ 64 = omega (
      arith,
      good.hash_width,
      length-append b₂ size,
      length-append hash index,
      length-to_le_bytes 4 i.previous_index,
      compact_short (length i.script),
      good.small_script,
    ) in
    let e₁ =
      parse-at parse_h256 i.previous_hash [] hash r₁
        (parse_h256-at i.previous_hash [] r₁ good.hash_width) in
    let e₂ =
      parse-at (parse_uint 4) i.previous_index hash index r₂
        (parse_uint-at 4 i.previous_index hash r₂ (omega (arith, good.small_index))) in
    let e₃ =
      parse-at parse_compact (length i.script) b₂ size r₃
        (parse_compact-compact_of (length i.script) b₂ r₃ good.small_script) in
    let e₄ = read-at b₃ i.script r₄ small in
    let e₅ =
      parse-at (parse_uint 4) i.sequence b₄ sequence rest
        (parse_uint-at 4 i.sequence b₄ rest (omega (arith, good.small_sequence))) in
    rw (assoc₅ hash index size i.script sequence rest, e₁, e₂, good.spends, e₃, e₄, e₅)
      (ap (λ j. ok (j, length (write_input i))) (plain_eq i good))

pub parse_input-at :
    (version : ℤ) (i : TransactionInput)
    → IsPlain i
    → (before rest : List ℕ)
    → parse_input version (before ++ (write_input i ++ rest)) (length before)
      ≡ ok (i, length (write_input i))
unfolding parse_input
parse_input-at version i good before rest =
    rw (slice_from-at {E = Error} before (write_input i ++ rest))
      (transaction_input_lem i version rest good)

abbrev pub write_output : TransactionOutput → List ℕ
write_output o = to_le_bytes 8 (from_signed 64 o.value) ++ compact_of (length o.script) ++ o.script

-- An output with a value that is not negative, and a script that is not too long.
pub record IsPayable (o : TransactionOutput) : Type 0 where
  pub amount : ℕ
  pub is_amount : o.value ≡ pos amount
  pub small_amount : amount < 2 ^ 63
  pub small_script : length o.script ≤ 10000

transaction_output_lem :
    (o : TransactionOutput) (rest : List ℕ)
    → IsPayable o
    → parse_transaction_output (write_output o ++ rest) ≡ ok (o, length (write_output o))
unfolding parse_transaction_output
transaction_output_lem o rest good =
    let value = to_le_bytes 8 (from_signed 64 o.value) in
    let size = compact_of (length o.script) in
    let r₂ = o.script ++ rest in
    let r₁ = size ++ r₂ in
    let b₂ = value ++ size in
    let pattern : from_signed 64 o.value ≡ good.amount = ap (from_signed 64) good.is_amount in
    let signed : to_signed 64 (from_signed 64 o.value) ≡ o.value =
      rw (pattern, good.is_amount) (ground (arith, good.small_amount)) in
    let small : length b₂ + length o.script < 2 ^ 64 = omega (
      arith,
      length-append value size,
      length-to_le_bytes 8 (from_signed 64 o.value),
      compact_short (length o.script),
      good.small_script,
    ) in
    let e₁ = parse-at (parse_int 8) o.value [] value r₁ (
      parse_int-at 8 o.value (from_signed 64 o.value) [] r₁
        (omega (arith, pattern, good.small_amount)) signed) in
    let e₂ =
      parse-at parse_compact (length o.script) value size r₂
        (parse_compact-compact_of (length o.script) value r₂ (omega (arith, good.small_script))) in
    let e₃ = read-at b₂ o.script rest small in
    let short : ltb 10000 (length o.script) ≡ false = ground (arith, good.small_script) in
    rw (append_assoc b₂ o.script rest ∙ append_assoc value size r₂, e₁, e₂, short, e₃) refl

pub parse_output-at :
    (o : TransactionOutput)
    → IsPayable o
    → (before rest : List ℕ)
    → parse_output (before ++ (write_output o ++ rest)) (length before)
      ≡ ok (o, length (write_output o))
unfolding parse_output
parse_output-at o good before rest =
    rw (slice_from-at {E = Error} before (write_output o ++ rest))
      (transaction_output_lem o rest good)
