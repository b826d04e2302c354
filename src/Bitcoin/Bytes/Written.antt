-- ===== src/Bitcoin/Bytes/Written.antt =====
-- What the parser of crates/bitcoin/src/parser.rs reads where something has been written: integers,
-- hashes and flag bits.
use mathlib.Core.List.{append_assoc}
use native.Mathlib.Nat.{pow-succ', div-div-eq-div-mul}
use btc_parachain.Prelude.{
  ℕ, zero, suc, some, ◌+◌, ◌-◌, ◌*◌, ◌/◌, ◌%◌, ◌^◌, ◌<◌, ◌≡◌, refl, sym, ap, ◌∙◌, Bool, true, false,
  List, [], ◌∷◌, ◌++◌, length, ltb, leb, ◌==◌, if◌then◌else◌, length-append, take-append,
  drop-append, get_elem?-append, get_elem?, arith,
}
use btc_parachain.Prelude.Words.{to_le_bytes, length-to_le_bytes, from_le_bytes-to_le_bytes}
use btc_parachain.Prelude.Result.{ok, slice, index, ◌>>=◌}
use btc_parachain.Bitcoin.Types.{Error}
use btc_parachain.Bitcoin.Hash.{H256Le}
use btc_parachain.Bitcoin.Bytes.{
  Parsable, BytesParser, parse, parse_uint, parse_h256, parse_flag_bits, bit,
}

-- The parser behind some bytes.
abbrev pub at : List ℕ → List ℕ → BytesParser
at before rest = record { raw_bytes = before ++ rest; position = length before }

pub slice-at :
    {E : Type 0} (before x rest : List ℕ)
    → slice {E = E} (before ++ (x ++ rest)) (length before) (length before + length x) ≡ ok x
slice-at before x rest =
    let all = length-append before (x ++ rest) in
    let some_of = length-append x rest in
    let low : leb (length before) (length before + length x) ≡ true = ground arith in
    let high : leb (length before + length x) (length (before ++ (x ++ rest))) ≡ true =
      ground (arith, all, some_of) in
    let size : length before + length x - length before ≡ length x = omega arith in
    rw (low, high, size, drop-append before (x ++ rest), take-append x rest) refl

pub enough :
    (before x rest : List ℕ) (n : ℕ)
    → length x ≡ n
    → ltb (length (before ++ (x ++ rest))) (length before + n) ≡ false
enough before x rest n wide =
    let all = length-append before (x ++ rest) in
    let some_of = length-append x rest in ground (arith, all, some_of)

-- Where an item is read, the parser goes on behind its bytes.
pub parse-at :
    {A : Type 0} (item : Parsable A) (a : A) (before x rest : List ℕ)
    → item (before ++ (x ++ rest)) (length before) ≡ ok (a, length x)
    → parse item (at before (x ++ rest)) ≡ ok (a, at (before ++ x) rest)
unfolding parse
parse-at item a before x rest e = rw (e, append_assoc before x rest, length-append before x) refl

pub parse_uint-at :
    (n value : ℕ) (before rest : List ℕ)
    → value < 256 ^ n
    → parse_uint n (before ++ (to_le_bytes n value ++ rest)) (length before)
      ≡ ok (value, length (to_le_bytes n value))
unfolding parse_uint
parse_uint-at n value before rest small =
    let width = length-to_le_bytes n value in
    let there = slice-at {E = Error} before (to_le_bytes n value) rest in
    let there' = rw width at there in
    rw
      (
        enough before (to_le_bytes n value) rest n width,
        there',
        from_le_bytes-to_le_bytes n value small,
        width,
      )
      refl

pub parse_h256-at :
    (hash : H256Le) (before rest : List ℕ)
    → length hash.content ≡ 32
    → parse_h256 (before ++ (hash.content ++ rest)) (length before) ≡ ok (hash, length hash.content)
unfolding parse_h256
parse_h256-at hash before rest width =
    let there = slice-at {E = Error} before hash.content rest in
    let there' = rw width at there in
    rw (enough before hash.content rest 32 width, there', width) refl

-- The byte that stands for eight flag bits, the lowest first.
abbrev pub byte_of : List Bool → ℕ
byte_of [] = 0
byte_of (b ∷ bits) = (if b then 1 else 0) + 2 * byte_of bits

abbrev pub bytes_of : List Bool → List ℕ
bytes_of bits = byte_of bits ∷ []

bit_back : (b : Bool) (bits : List Bool) → bit (byte_of (b ∷ bits)) 0 ≡ b
bit_back true bits = ground arith
bit_back false bits = ground arith

halved : (b : Bool) (bits : List Bool) → byte_of (b ∷ bits) / 2 ≡ byte_of bits
halved true bits = omega arith
halved false bits = omega arith

bit_above :
    (b : Bool) (bits : List Bool) (i : ℕ) → bit (byte_of (b ∷ bits)) (suc i) ≡ bit (byte_of bits) i
bit_above b bits i =
    let e : byte_of (b ∷ bits) / 2 ^ suc i ≡ byte_of bits / 2 ^ i = rw pow-succ' (
      sym (div-div-eq-div-mul (byte_of (b ∷ bits)) 2 (2 ^ i))
      ∙ ap (λ n. n / 2 ^ i) (halved b bits)) in
    ap (λ n. n % 2 == 1) e

bits_back :
    (i : ℕ) (b : Bool) (bits : List Bool) → get_elem? bits i ≡ some b → bit (byte_of bits) i ≡ b
bits_back i b [] e = absurd (ground arith)
bits_back zero b (c ∷ bits) e = bit_back c bits ∙ ground (arith, e)
bits_back (suc i) b (c ∷ bits) e = bit_above c bits i ∙ bits_back i b bits e

-- The bits of a byte, the lowest first, as `parse_flag_bits` returns them.
abbrev bits_from : ℕ → ℕ → ℕ → List Bool
bits_from byte i zero = []
bits_from byte i (suc n) = bit byte i ∷ bits_from byte (suc i) n

all_back :
    (byte i : ℕ) (bits : List Bool)
    → ((j : ℕ) (b : Bool) → get_elem? bits j ≡ some b → bit byte (i + j) ≡ b)
    → bits_from byte i (length bits) ≡ bits
all_back byte i [] same = refl
all_back byte i (b ∷ bits) same =
    let here : bit byte i ≡ b = let e : i + 0 ≡ i = omega arith in rw e at (same 0 b refl) in
    let above : bits_from byte (suc i) (length bits) ≡ bits =
      all_back byte (suc i) bits (λ j c e.
        let next : i + suc j ≡ suc i + j = omega arith in rw next at (same (suc j) c e)) in
    rw (here, above) refl

-- Eight bits that are written as a byte are read back.
pub parse_flag_bits-at :
    (bits : List Bool) (before rest : List ℕ)
    → length bits ≡ 8
    → parse_flag_bits (before ++ (bytes_of bits ++ rest)) (length before)
      ≡ ok (bits, length (bytes_of bits))
unfolding parse_flag_bits
parse_flag_bits-at bits before rest eight =
    let back : bits_from (byte_of bits) 0 (length bits) ≡ bits =
      all_back (byte_of bits) 0 bits
        (λ j b e. let start : 0 + j ≡ j = omega arith in rw start (bits_back j b bits e)) in
    let back' : bits_from (byte_of bits) 0 8 ≡ bits = rw eight at back in
    let there : index {E = Error} (before ++ (bytes_of bits ++ rest)) (length before)
        ≡ ok (byte_of bits) =
      rw (index, get_elem?-append before (byte_of bits) rest) refl in
    ap (λ r. r >>= λ byte. ok (bits_from byte 0 8, 1)) there
    ∙ ap (λ (l : List Bool). ok (l, 1)) back'
