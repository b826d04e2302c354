-- ===== src/Bitcoin/Hash.antt =====
-- `H256Le` of crates/bitcoin/src/types.rs, and the double hash of crates/bitcoin/src/utils.rs.
use btc_parachain.Prelude.{
  ℕ, ◌≡◌, Bool, true, List, length, replicate, ◌==◌, if◌then◌else◌, eq_bytes, eq_bytes_sound,
  eq_bytes_refl, ap,
}
use btc_parachain.Prelude.Words.{from_le_bytes}
use btc_parachain.Prelude.Result.{Result, ok, panic}
use btc_parachain.Libraries.{Libraries}

pub record H256Le : Type 0 where
  pub content : List ℕ

abbrev pub zero : H256Le
zero = record { content = replicate 32 0 }

-- `copy_from_slice` into an array of 32 bytes panics at any other length.
abbrev pub from_bytes_le : {E : Type 0} → List ℕ → Result E H256Le
from_bytes_le bytes = if length bytes == 32 then ok (record { content = bytes }) else panic

abbrev pub from_bytes_be : {E : Type 0} → Libraries → List ℕ → Result E H256Le
from_bytes_be lib bytes = from_bytes_le (lib.reverse_endianness bytes)

abbrev pub to_bytes_le : H256Le → List ℕ
to_bytes_le h = h.content

abbrev pub to_bytes_be : Libraries → H256Le → List ℕ
to_bytes_be lib h = lib.reverse_endianness h.content

unfoldable pub as_u256 : H256Le → ℕ
as_u256 h = from_le_bytes h.content

-- The derived `PartialEq`.
unfoldable pub eq : H256Le → H256Le → Bool
eq a b = eq_bytes a.content b.content

pub eq_refl : (a : H256Le) → eq a a ≡ true
unfolding eq
eq_refl a = eq_bytes_refl a.content

pub eq_sound : (a b : H256Le) → eq a b ≡ true → a ≡ b
unfolding eq
eq_sound a b h = ap (λ c. record { content = c }) (eq_bytes_sound a.content b.content h)

-- `sha256d`, `sha256d_le` and `BlockHeader::block_hash_le`
unfoldable pub sha256d : Libraries → List ℕ → List ℕ
sha256d lib bytes = lib.sha256 (lib.sha256 bytes)

unfoldable pub sha256d_le : Libraries → List ℕ → H256Le
sha256d_le lib bytes = record { content = sha256d lib bytes }
