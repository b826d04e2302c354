-- ===== src/Bitcoin/Header/Fields.antt =====
-- Where the fields of the 80 bytes of a block header are read by crates/bitcoin/src/parser.rs.
use btc_parachain.Prelude.{
  ℕ, zero, suc, ◌+◌, ◌-◌, ◌*◌, ◌^◌, ◌<◌, ◌≡◌, refl, sym, ap, ◌∙◌, List, [], ◌∷◌, ◌++◌, length, take,
  drop, length-append, take-append, arith, ltb, true,
}
use btc_parachain.Prelude.Words.{from_le_bytes}
use btc_parachain.Prelude.Result.{ok}
use btc_parachain.Libraries.{Libraries, AllBytes}
use btc_parachain.Bitcoin.Types.{RawBlockHeader}
use btc_parachain.Bitcoin.Header.{
  parse_block_header, extract_nonce, extract_version, extract_target, extract_timestamp,
  extract_merkle_root, extract_previous_block_hash,
}

-- What bitcoin-spv documents of the calls: where the fields of a header are, the time being a little
-- endian number, and the target a mantissa of 3 bytes and an exponent of 1 byte, which counts from 3.
pub record ReadsFields (lib : Libraries) : Type 0 where
  pub prev_block_hash :
      (raw : RawBlockHeader)
      → length raw ≡ 80
      → AllBytes raw
      → lib.extract_prev_block_hash_le raw ≡ take 32 (drop 4 raw)
  pub merkle_root :
      (raw : RawBlockHeader)
      → length raw ≡ 80
      → AllBytes raw
      → lib.extract_merkle_root_le raw ≡ take 32 (drop 36 raw)
  pub timestamp :
      (raw : RawBlockHeader)
      → length raw ≡ 80
      → AllBytes raw
      → lib.extract_timestamp raw ≡ from_le_bytes (take 4 (drop 68 raw))
  pub target :
      (raw : RawBlockHeader)
      → length raw ≡ 80
      → AllBytes raw
      → lib.extract_target raw
        ≡ from_le_bytes (take 3 (drop 72 raw)) * 256 ^ (from_le_bytes (take 1 (drop 75 raw)) - 3)

skip : (n m : ℕ) (x rest : List ℕ) → length x ≡ n → drop (n + m) (x ++ rest) ≡ drop m rest
skip n m [] rest e = let start : n + m ≡ m = omega (arith, e) in rw start refl
skip zero m (b ∷ x) rest e = absurd (omega (arith, e))
skip (suc n) m (b ∷ x) rest e =
    let next : suc n + m ≡ suc (n + m) = omega arith in rw next (skip n m x rest (omega (arith, e)))

read_here : (n : ℕ) (x rest : List ℕ) → length x ≡ n → take n (x ++ rest) ≡ x
read_here n x rest e = ap (λ k. take k (x ++ rest)) (sym e) ∙ take-append x rest

-- The fields of a header by their bytes.
module _ (version prev root time mantissa exponent nonce : List ℕ) where
  abbrev pub fields : RawBlockHeader
  fields = version ++ (prev ++ (root ++ (time ++ (mantissa ++ (exponent ++ (nonce ++ []))))))

  module _ (version_width : length version ≡ 4) (prev_width : length prev ≡ 32)
      (root_width : length root ≡ 32) (time_width : length time ≡ 4)
      (mantissa_width : length mantissa ≡ 3) (exponent_width : length exponent ≡ 1)
      (nonce_width : length nonce ≡ 4) where
    fields-length : length fields ≡ 80
    fields-length =
        let n = length-append nonce [] in
        let e = length-append exponent (nonce ++ []) in
        let m = length-append mantissa (exponent ++ (nonce ++ [])) in
        let t = length-append time (mantissa ++ (exponent ++ (nonce ++ []))) in
        let r = length-append root (time ++ (mantissa ++ (exponent ++ (nonce ++ [])))) in
        let p = length-append prev (root ++ (time ++ (mantissa ++ (exponent ++ (nonce ++ []))))) in
        let v =
          length-append version
            (prev ++ (root ++ (time ++ (mantissa ++ (exponent ++ (nonce ++ [])))))) in
        omega (
          arith, n, e, m, t, r, p, v, version_width, prev_width, root_width, time_width,
          mantissa_width, exponent_width, nonce_width,
        )

    drop_version :
        (m : ℕ)
        → drop (4 + m) fields
          ≡ drop m (prev ++ (root ++ (time ++ (mantissa ++ (exponent ++ (nonce ++ []))))))
    drop_version m = skip 4 m version _ version_width

    read_version : take 4 (drop 0 fields) ≡ version
    read_version = read_here 4 version _ version_width

    read_prev : take 32 (drop 4 fields) ≡ prev
    read_prev = ap (λ l. take 32 l) (drop_version 0) ∙ read_here 32 prev _ prev_width

    drop_prev :
        (m : ℕ)
        → drop (36 + m) fields
          ≡ drop m (root ++ (time ++ (mantissa ++ (exponent ++ (nonce ++ [])))))
    drop_prev m =
        let sum : 36 + m ≡ 4 + (32 + m) = omega arith in
        rw sum (drop_version (32 + m) ∙ skip 32 m prev _ prev_width)

    read_root : take 32 (drop 36 fields) ≡ root
    read_root = ap (λ l. take 32 l) (drop_prev 0) ∙ read_here 32 root _ root_width

    drop_root :
        (m : ℕ) → drop (68 + m) fields ≡ drop m (time ++ (mantissa ++ (exponent ++ (nonce ++ []))))
    drop_root m =
        let sum : 68 + m ≡ 36 + (32 + m) = omega arith in
        rw sum (drop_prev (32 + m) ∙ skip 32 m root _ root_width)

    read_time : take 4 (drop 68 fields) ≡ time
    read_time = ap (λ l. take 4 l) (drop_root 0) ∙ read_here 4 time _ time_width

    drop_time : (m : ℕ) → drop (72 + m) fields ≡ drop m (mantissa ++ (exponent ++ (nonce ++ [])))
    drop_time m =
        let sum : 72 + m ≡ 68 + (4 + m) = omega arith in
        rw sum (drop_root (4 + m) ∙ skip 4 m time _ time_width)

    read_mantissa : take 3 (drop 72 fields) ≡ mantissa
    read_mantissa = ap (λ l. take 3 l) (drop_time 0) ∙ read_here 3 mantissa _ mantissa_width

    drop_mantissa : (m : ℕ) → drop (75 + m) fields ≡ drop m (exponent ++ (nonce ++ []))
    drop_mantissa m =
        let sum : 75 + m ≡ 72 + (3 + m) = omega arith in
        rw sum (drop_time (3 + m) ∙ skip 3 m mantissa _ mantissa_width)

    read_exponent : take 1 (drop 75 fields) ≡ exponent
    read_exponent = ap (λ l. take 1 l) (drop_mantissa 0) ∙ read_here 1 exponent _ exponent_width

    read_nonce : take 4 (drop 76 fields) ≡ nonce
    read_nonce =
        ap (λ l. take 4 l) (drop_mantissa 1 ∙ skip 1 0 exponent _ exponent_width)
        ∙ read_here 4 nonce _ nonce_width

    module _ (lib : Libraries) (reads : ReadsFields lib) (all : AllBytes fields)
        (small : from_le_bytes mantissa * 256 ^ (from_le_bytes exponent - 3) < 2 ^ 256) where
      lib_prev : lib.extract_prev_block_hash_le fields ≡ prev
      lib_prev = reads.prev_block_hash fields fields-length all ∙ read_prev

      lib_root : lib.extract_merkle_root_le fields ≡ root
      lib_root = reads.merkle_root fields fields-length all ∙ read_root

      lib_time : lib.extract_timestamp fields ≡ from_le_bytes time
      lib_time = reads.timestamp fields fields-length all ∙ ap from_le_bytes read_time

      lib_target :
          lib.extract_target fields ≡ from_le_bytes mantissa * 256 ^ (from_le_bytes exponent - 3)
      lib_target =
          let there = reads.target fields fields-length all in
          rw (read_mantissa, read_exponent) at there

      pub parse_fields :
          {E : Type 0}
          → parse_block_header {E = E} lib fields
            ≡ ok (record {
              merkle_root = record { content = root };
              target = from_le_bytes mantissa * 256 ^ (from_le_bytes exponent - 3);
              timestamp = from_le_bytes time;
              version = from_le_bytes version;
              hash_prev_block = record { content = prev };
              nonce = from_le_bytes nonce;
            })
      unfolding parse_block_header extract_nonce extract_version extract_target extract_timestamp
          extract_merkle_root extract_previous_block_hash
      parse_fields =
          let fits : ltb (from_le_bytes mantissa * 256 ^ (from_le_bytes exponent - 3)) (2 ^ 256)
              ≡ true =
            ground (arith, small) in
          rw
            (
              lib_root, root_width, lib_target, fits, fields-length, read_version, read_nonce,
              lib_prev, prev_width, lib_time,
            )
            refl
