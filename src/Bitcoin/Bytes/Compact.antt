-- ===== src/Bitcoin/Bytes/Compact.antt =====
-- Compact integers: `parse_compact_uint` and `impl Parsable for CompactUint` of
-- crates/bitcoin/src/parser.rs.
use Prim.Native.Nat.{min}
use btc_parachain.Prelude.{
  ℕ, zero, suc, ◌+◌, ◌-◌, ◌^◌, ◌≤◌, ◌<◌, ◌≡◌, refl, ap, ◌∙◌, List, [], ◌∷◌, ◌++◌, length, take, ltb,
  if◌then◌else◌, arith, inl, inr, Bool-cases, length-append, length-take, drop-append,
}
use btc_parachain.Prelude.Words.{from_le_bytes, to_le_bytes}
use btc_parachain.Prelude.Result.{ok, panic}
use btc_parachain.Bitcoin.Bytes.{parse_compact, parse_compact_uint}

take-min : {A : Type 0} (n : ℕ) (xs : List A) → take (min n (length xs)) xs ≡ take n xs
take-min zero xs = let e : min 0 (length xs) ≡ 0 = omega arith in ap (λ k. take k xs) e
take-min (suc n) [] = let e : min (suc n) 0 ≡ 0 = omega arith in rw e refl
take-min (suc n) (x ∷ xs) =
    let e : min (suc n) (suc (length xs)) ≡ suc (min n (length xs)) = omega arith in
    ap (λ k. take k (x ∷ xs)) e ∙ ap (λ l. x ∷ l) (take-min n xs)

-- Behind a prefix, the parser looks at the three bytes that follow it.
parse_compact-append :
    (before rest : List ℕ)
    → parse_compact (before ++ rest) (length before) ≡ parse_compact_uint (take 3 rest)
unfolding parse_compact
parse_compact-append before rest =
    let size : length (before ++ rest) ≡ length before + length rest = length-append before rest in
    let window : min (length before + 3) (length before + length rest) - length before
        ≡ min 3 (length rest) =
      omega arith in
    ground (arith, size, window, drop-append before rest, take-min 3 rest)

-- A compact integer, as Bitcoin writes it in its shortest form, below 2 ^ 16.
abbrev pub compact_of : ℕ → List ℕ
compact_of n = if ltb n 0xfd then n ∷ [] else 0xfd ∷ to_le_bytes 2 n

compact_read_back :
    (n : ℕ) (behind : List ℕ)
    → n < 2 ^ 16
    → parse_compact_uint (take 3 (compact_of n ++ behind)) ≡ ok (n, length (compact_of n))
unfolding parse_compact_uint to_le_bytes from_le_bytes
compact_read_back n behind small = elim (Bool-cases (ltb n 0xfd)) [
  | inl low ↦ ground (arith, low)
  | inr high ↦ ground (arith, high)
]

mark_panics :
    (mark : ℕ) (behind : List ℕ)
    → 0xfe ≤ mark
    → mark ≤ 0xff
    → parse_compact_uint (take 3 (mark ∷ behind)) ≡ panic
unfolding parse_compact_uint
mark_panics mark behind low high =
    let few : length (take 3 (mark ∷ behind)) ≤ 3 = omega (arith, length-take 3 (mark ∷ behind)) in
    ground (arith, few)

-- A compact integer below 2 ^ 16 that stands anywhere in the input is read back, with the number of
-- its bytes.
pub parse_compact-compact_of :
    (n : ℕ) (before behind : List ℕ)
    → n < 2 ^ 16
    → parse_compact (before ++ (compact_of n ++ behind)) (length before)
      ≡ ok (n, length (compact_of n))
parse_compact-compact_of n before behind small =
    parse_compact-append before (compact_of n ++ behind) ∙ compact_read_back n behind small

-- An encoding with four or eight bytes behind its mark makes the parser panic, whatever follows: only
-- three bytes of it are looked at.
pub parse_compact_panics :
    (mark : ℕ) (before behind : List ℕ)
    → 0xfe ≤ mark
    → mark ≤ 0xff
    → parse_compact (before ++ mark ∷ behind) (length before) ≡ panic
parse_compact_panics mark before behind low high =
    parse_compact-append before (mark ∷ behind) ∙ mark_panics mark behind low high
