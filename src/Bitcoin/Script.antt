-- ===== src/Bitcoin/Script.antt =====
-- crates/bitcoin/src/parser.rs: what the relay reads from an output script.
pub mod Address
use btc_parachain.Prelude.{
  ℕ, ◌-◌, ◌%◌, ◌^◌, not, Bool, true, false, List, [], ◌∷◌, length, ltb, ◌==◌, if◌then◌else◌,
  eq_bytes,
}
use btc_parachain.Prelude.Result.{Result, ok, err, index, slice, slice_from, fail_if, ◌>>=◌, ◌>>◌}
use btc_parachain.Bitcoin.Types.{
  Error, malformed_witness_output, malformed_p2pkh_output, malformed_p2sh_output,
  malformed_op_return_output, unsupported_output_format,
}

abbrev pub p2pkh_script_size : ℕ
p2pkh_script_size = 25

abbrev pub p2sh_script_size : ℕ
p2sh_script_size = 23

abbrev pub hash160_size_hex : ℕ
hash160_size_hex = 0x14

abbrev pub max_opreturn_size : ℕ
max_opreturn_size = 83

pub data OpCode : Type 0 where
  op_dup op_hash160 op_equal_verify op_check_sig op_equal op_return : OpCode

-- `opcode as u8`
abbrev pub code_of : OpCode → ℕ
code_of op_dup = 0x76
code_of op_hash160 = 0xa9
code_of op_equal_verify = 0x88
code_of op_check_sig = 0xac
code_of op_equal = 0x87
code_of op_return = 0x6a

-- `a && s[i..j] == bytes`, which slices only where `a` holds.
abbrev pub has_bytes : Bool → List ℕ → ℕ → ℕ → List ℕ → Result Error Bool
has_bytes false s i j bytes = ok false
has_bytes true s i j bytes = do part ← slice s i j; ok (eq_bytes part bytes)

unfoldable pub witness_program : List ℕ → Result Error (List ℕ)
witness_program script = do
  fail_if (ltb (length script) 2) malformed_witness_output
  size ← index script 1
  if size == (length script - 2) % 256 then slice_from script 2 else err malformed_witness_output

unfoldable pub p2pkh_hash : List ℕ → Result Error (List ℕ)
p2pkh_hash script = do
  last ← slice script (length script - 2) (length script)
  fail_if (not (eq_bytes last (code_of op_equal_verify ∷ code_of op_check_sig ∷ [])))
      malformed_p2pkh_output
  slice script 3 (length script - 2)

unfoldable pub p2sh_hash : List ℕ → Result Error (List ℕ)
p2sh_hash script = do
  last ← index script (length script - 1)
  fail_if (not (last == code_of op_equal)) malformed_p2sh_output
  slice script 2 (length script - 1)

unfoldable pub extract_address_hash : List ℕ → Result Error (List ℕ)
extract_address_hash output_script = do
  let script_len = length output_script
  first ← index output_script 0
  if first == 0 then witness_program output_script else do
    is_p2pkh ←
        has_bytes (script_len % 2 ^ 32 == p2pkh_script_size) output_script 0 3
          (code_of op_dup ∷ code_of op_hash160 ∷ hash160_size_hex ∷ [])
    if is_p2pkh then p2pkh_hash output_script else do
      is_p2sh ←
          has_bytes (script_len % 2 ^ 32 == p2sh_script_size) output_script 0 2
            (code_of op_hash160 ∷ hash160_size_hex ∷ [])
      if is_p2sh then p2sh_hash output_script else err unsupported_output_format

unfoldable pub extract_op_return_data : List ℕ → Result Error (List ℕ)
extract_op_return_data output_script = do
  first ← index output_script 0
  fail_if (not (first == code_of op_return)) malformed_op_return_output
  fail_if (ltb max_opreturn_size (length output_script)) malformed_op_return_output
  slice_from output_script 2
