-- ===== src/Bitcoin/Bytes/Sequence.antt =====
-- Sequences of items that are written, and what the loops of crates/bitcoin/src/parser.rs read.
use mathlib.Core.List.{append_assoc, append-nil}
use btc_parachain.Prelude.{
  ℕ, ◌+◌, ◌*◌, ◌^◌, ◌<◌, ◌≡◌, refl, true, List, [], ◌∷◌, ◌++◌, length, leb, length-append,
  drop-append, arith,
}
use btc_parachain.Prelude.Words.{add64, to_le_bytes}
use btc_parachain.Prelude.Result.{ok, slice_from}
use btc_parachain.Prelude.Int.{ℤ, to_signed}
use btc_parachain.Bitcoin.Bytes.Compact.{compact_of, parse_compact-compact_of}
use btc_parachain.Bitcoin.Types.{Error}
use btc_parachain.Bitcoin.Bytes.{Parsable, parse_items, read, parse_int, parse_vec, parse_compact}
use btc_parachain.Bitcoin.Bytes.Written.{at, slice-at, enough, parse-at, parse_uint-at}

abbrev pub AllGood : {A : Type 0} → (A → Type 0) → List A → Type 0
AllGood IsGood [] = Unit
AllGood IsGood (x ∷ items) = IsGood x × AllGood IsGood items

abbrev pub write_all : {A : Type 0} → (A → List ℕ) → List A → List ℕ
write_all write [] = []
write_all write (x ∷ items) = write x ++ write_all write items

module _ {A : Type 0} (item : Parsable A) (write : A → List ℕ) (IsGood : A → Type 0)
    (reads_back : (x : A)
      → IsGood x
      → (before rest : List ℕ)
      → item (before ++ (write x ++ rest)) (length before) ≡ ok (x, length (write x))) where
  -- Items that are written one behind the other are read back.
  pub parse_items-at :
      (items : List A) (before rest : List ℕ)
      → AllGood IsGood items
      → parse_items (length items) item (at before (write_all write items ++ rest))
        ≡ ok (items, at (before ++ write_all write items) rest)
  unfolding parse_items
  parse_items-at [] before rest good = rw (append-nil before) refl
  parse_items-at (x ∷ items) before rest (one, good) =
      let others = write_all write items in
      let first =
        parse-at item x before (write x) (others ++ rest)
          (reads_back x one before (others ++ rest)) in
      rw
        (
          append_assoc (write x) others rest,
          first,
          parse_items-at items (before ++ write x) rest good,
          append_assoc before (write x) others,
        )
        refl

-- `read` behind some bytes, where the end of what it reads is below 2 ^ 64.
pub read-at :
    (before x rest : List ℕ)
    → length before + length x < 2 ^ 64
    → read (length x) (at before (x ++ rest)) ≡ ok (x, at (before ++ x) rest)
unfolding read
read-at before x rest small =
    let sum : add64 (length before) (length x) ≡ length before + length x = omega arith in
    rw
      (
        sum,
        enough before x rest (length x) refl,
        slice-at {E = Error} before x rest,
        append_assoc before x rest,
        length-append before x,
      )
      refl

pub parse_int-at :
    (n : ℕ) (value : ℤ) (pattern : ℕ) (before rest : List ℕ)
    → pattern < 256 ^ n
    → to_signed (8 * n) pattern ≡ value
    → parse_int n (before ++ (to_le_bytes n pattern ++ rest)) (length before)
      ≡ ok (value, length (to_le_bytes n pattern))
unfolding parse_int
parse_int-at n value pattern before rest small signed =
    rw (parse_uint-at n pattern before rest small, signed) refl

pub slice_from-at :
    {E : Type 0} (before rest : List ℕ)
    → slice_from {E = E} (before ++ rest) (length before) ≡ ok rest
slice_from-at before rest =
    let low : leb (length before) (length (before ++ rest)) ≡ true =
      ground (arith, length-append before rest) in
    rw (low, drop-append before rest) refl

-- The number of the items, and the items.
abbrev pub write_vec : {A : Type 0} → (A → List ℕ) → List A → List ℕ
write_vec write items = compact_of (length items) ++ write_all write items

module _ {A : Type 0} (item : Parsable A) (write : A → List ℕ) (IsGood : A → Type 0)
    (reads_back : (x : A)
      → IsGood x
      → (before rest : List ℕ)
      → item (before ++ (write x ++ rest)) (length before) ≡ ok (x, length (write x))) where
  -- Fewer than 2 ^ 16 items that are written behind their number are read back.
  pub parse_vec-at :
      (items : List A) (before rest : List ℕ)
      → length items < 2 ^ 16
      → AllGood IsGood items
      → parse_vec item (before ++ (write_vec write items ++ rest)) (length before)
        ≡ ok (items, length (write_vec write items))
  unfolding parse_vec
  parse_vec-at items before rest few good =
      let size = compact_of (length items) in
      let written = write_all write items in
      let counted =
        parse-at parse_compact (length items) [] size (written ++ rest)
          (parse_compact-compact_of (length items) [] (written ++ rest) few) in
      rw
        (
          slice_from-at {E = Error} before (size ++ written ++ rest),
          append_assoc size written rest,
          counted,
          parse_items-at item write IsGood reads_back items size rest good,
        )
        refl
