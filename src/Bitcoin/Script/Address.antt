-- ===== src/Bitcoin/Script/Address.antt =====
-- The output scripts that `extract_address_hash` and `extract_op_return_data` of
-- crates/bitcoin/src/parser.rs are to read.
use btc_parachain.Prelude.{
  ℕ, ◌≤◌, ◌≡◌, sym, ap, ◌∙◌, List, [], ◌∷◌, ◌++◌, length, take, drop, leb, arith, length-append,
  take-append, drop-append, get_elem?, get_elem?-append, some, eq_bytes, if◌then◌else◌,
}
use btc_parachain.Prelude.Result.{ok, err}
use btc_parachain.Bitcoin.Types.{malformed_op_return_output}
use btc_parachain.Bitcoin.Script.{
  code_of, op_dup, op_hash160, op_equal_verify, op_check_sig, op_equal, op_return,
  extract_address_hash, extract_op_return_data, witness_program, p2pkh_hash, p2sh_hash,
}

-- The three kinds of addresses that the relay supports.
pub data AddressKind : Type 0 where
  witness_program_of key_hash script_hash : AddressKind

-- The output script of an address, as Bitcoin writes it.
abbrev pub script_of : AddressKind → List ℕ → List ℕ
script_of witness_program_of h = 0 ∷ length h ∷ h
script_of key_hash h =
    code_of op_dup
    ∷ code_of op_hash160
    ∷ 20
    ∷ (h ++ code_of op_equal_verify ∷ code_of op_check_sig ∷ [])
script_of script_hash h = code_of op_hash160 ∷ 20 ∷ (h ++ code_of op_equal ∷ [])

-- A witness program has at most 40 bytes, a hash has 20.
abbrev pub HasWidth : AddressKind → List ℕ → Type 0
HasWidth witness_program_of h = length h ≤ 40
HasWidth key_hash h = length h ≡ 20
HasWidth script_hash h = length h ≡ 20

take_hash_of : (h suf : List ℕ) → length h ≡ 20 → take 20 (h ++ suf) ≡ h
take_hash_of h suf e = ap (λ n. take n (h ++ suf)) (sym e) ∙ take-append h suf

drop_hash_of : (h suf : List ℕ) → length h ≡ 20 → drop 20 (h ++ suf) ≡ suf
drop_hash_of h suf e = ap (λ n. drop n (h ++ suf)) (sym e) ∙ drop-append h suf

-- The address hash that is read from the script of an address is that address, for a witness
-- program of at most 40 bytes and for a key or script hash of 20 bytes.
pub extract_address_hash-script_of :
    (k : AddressKind) (h : List ℕ) → HasWidth k h → extract_address_hash (script_of k h) ≡ ok h
unfolding extract_address_hash witness_program p2pkh_hash p2sh_hash eq_bytes
extract_address_hash-script_of witness_program_of h wide = ground arith
extract_address_hash-script_of key_hash h wide =
    let suf : List ℕ = code_of op_equal_verify ∷ code_of op_check_sig ∷ [] in
    let size : length (h ++ suf) ≡ 22 = omega (arith, length-append h suf) in
    ground (arith, size, drop_hash_of h suf wide, take_hash_of h suf wide)
extract_address_hash-script_of script_hash h wide =
    let suf : List ℕ = code_of op_equal ∷ [] in
    let size : length (h ++ suf) ≡ 21 = omega (arith, length-append h suf) in
    let last : get_elem? (h ++ suf) 20 ≡ some (code_of op_equal) =
      ap (get_elem? (h ++ suf)) (sym wide) ∙ get_elem?-append h (code_of op_equal) [] in
    ground (arith, size, last, take_hash_of h suf wide)

-- The data behind OP_RETURN and one byte for its size is read as it stands, up to 81 bytes; more is
-- refused as malformed.
pub extract_op_return_data_lem :
    (size : ℕ) (payload : List ℕ)
    → extract_op_return_data (code_of op_return ∷ size ∷ payload)
      ≡ (if leb (length payload) 81 then ok payload else err malformed_op_return_output)
unfolding extract_op_return_data
extract_op_return_data_lem size payload = ground arith
