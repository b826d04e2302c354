-- ===== src/Examples/Header.antt =====
-- An example of a header that is written and parsed.
use native.Mathlib.Nat.{pow-suc}
use btc_parachain.Prelude.{
  ◌<◌, ℕ, zero, suc, ◌+◌, ◌-◌, ◌*◌, ◌^◌, ◌≤◌, ◌≡◌, refl, ap, List, [], ◌∷◌, ◌++◌, length, take,
  drop, replicate, length-take, length-drop, arith,
}
use btc_parachain.Prelude.Words.{from_le_bytes}
use btc_parachain.Prelude.Result.{ok}
use btc_parachain.Libraries.{Libraries, AllBytes}
use btc_parachain.Bitcoin.Types.{BlockHeader, Error}
use btc_parachain.Bitcoin.Header.{parse_block_header}
use btc_parachain.Bitcoin.Header.Fields.{ReadsFields}
use btc_parachain.Bitcoin.Header.Written.{IsWritable, write_header, parse_block_header-write_header}
use btc_parachain.Examples.Data.{toy, hash_of}

-- The fields as bitcoin-spv documents them.
abbrev documented : Libraries
documented = record toy {
  extract_target =
      λ h. from_le_bytes (take 3 (drop 72 h)) * 256 ^ (from_le_bytes (take 1 (drop 75 h)) - 3);
}

take-fit : (n : ℕ) (bs rest : List ℕ) → n ≤ length bs → take n (bs ++ rest) ≡ take n bs
take-fit zero bs rest le = refl
take-fit (suc n) [] rest le = absurd (omega (arith, le))
take-fit (suc n) (b ∷ bs) rest le = ap (λ l. b ∷ l) (take-fit n bs rest (omega (arith, le)))

AllBytes-take : (n : ℕ) (bs : List ℕ) → AllBytes bs → AllBytes (take n bs)
AllBytes-take zero bs all = tt
AllBytes-take (suc n) [] all = tt
AllBytes-take (suc n) (b ∷ bs) (one, all) = (one, AllBytes-take n bs all)

AllBytes-drop : (n : ℕ) (bs : List ℕ) → AllBytes bs → AllBytes (drop n bs)
AllBytes-drop zero bs all = all
AllBytes-drop (suc n) [] all = tt
AllBytes-drop (suc n) (b ∷ bs) (one, all) = AllBytes-drop n bs all

from_le_bytes-lt : (bs : List ℕ) → AllBytes bs → from_le_bytes bs < 256 ^ length bs
unfolding from_le_bytes
from_le_bytes-lt [] all = omega arith
from_le_bytes-lt (b ∷ bs) (one, all) = rw pow-suc (omega (arith, one, from_le_bytes-lt bs all))

-- Four bytes of a header are a u32.
word_lt :
    (n : ℕ) (bs : List ℕ)
    → AllBytes bs
    → n + 4 ≤ length bs
    → from_le_bytes (take 4 (drop n bs)) < 2 ^ 32
word_lt n bs all inside =
    let size : length (take 4 (drop n bs)) ≡ 4 =
      omega (arith, inside, length-take 4 (drop n bs), length-drop n bs) in
    let bound =
      from_le_bytes-lt (take 4 (drop n bs))
        (AllBytes-take 4 (drop n bs) (AllBytes-drop n bs all)) in
    let bound' = rw size at bound in omega (arith, bound')

documented-ReadsFields : ReadsFields documented
documented-ReadsFields = record {
  prev_block_hash = λ raw wide all.
      take-fit 32 (drop 4 raw) (replicate 32 0) (omega (arith, wide, length-drop 4 raw));
  merkle_root = λ raw wide all.
      take-fit 32 (drop 36 raw) (replicate 32 0) (omega (arith, wide, length-drop 36 raw));
  timestamp = λ raw wide all. omega (arith, word_lt 68 raw all (omega (arith, wide)));
  target = λ raw wide all. refl;
}

-- The header of a block of 2018: the difficulty bits are 0x17492b1f.
abbrev header : BlockHeader
header = record {
  merkle_root = hash_of 9;
  target = 4795167 * 256 ^ 20;
  timestamp = 1530000000;
  version = 536870912;
  hash_prev_block = hash_of 8;
  nonce = 3000000001;
}

zeros-AllBytes : (n : ℕ) → AllBytes (replicate n 0)
zeros-AllBytes zero = tt
zeros-AllBytes (suc n) = (omega arith, zeros-AllBytes n)

hash_of-AllBytes : (n : ℕ) → n < 256 → AllBytes (n ∷ replicate 31 0)
hash_of-AllBytes n small = (small, zeros-AllBytes 31)

header-IsWritable : IsWritable 4795167 23 header
header-IsWritable = record {
  root_width = refl;
  root_bytes = hash_of-AllBytes 9 (omega arith);
  prev_width = refl;
  prev_bytes = hash_of-AllBytes 8 (omega arith);
  small_version = omega arith;
  small_time = omega arith;
  small_nonce = omega arith;
  small_mantissa = omega arith;
  small_exponent = omega arith;
  is_target = refl;
  small_target = omega arith;
}

parse_block_header-write_header_example :
    parse_block_header {E = Error} documented (write_header 4795167 23 header) ≡ ok header
parse_block_header-write_header_example =
    parse_block_header-write_header documented documented-ReadsFields 4795167 23 header
      header-IsWritable
