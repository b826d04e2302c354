-- ===== src/Examples/Data.antt =====
-- A concrete instance of the external code, and a storage with a main chain of seven blocks and a
-- fork.
use mathlib.Core.List.{reverse, reverse-reverse, reverse-cons}
use btc_parachain.Prelude.{
  ℕ, ◌%◌, ◌^◌, ◌≡◌, refl, ap, ◌∙◌, arith, none, some, Option, List, [], ◌∷◌, ◌++◌, length, take,
  drop, replicate, length-append, length-take, length-replicate, leb, ◌==◌, if◌then◌else◌,
}
use btc_parachain.Prelude.Words.{from_le_bytes}
use btc_parachain.Libraries.{Libraries}
use btc_parachain.Bitcoin.Hash.{H256Le}
use btc_parachain.Bitcoin.Types.{BlockHeader, RichBlockHeader}
use btc_parachain.Relay.Storage.{Storage, BlockChain}

-- The first 32 bytes, with zeros behind.
abbrev pub fit : List ℕ → List ℕ
fit bs = take 32 (bs ++ replicate 32 0)

pub length-fit : (bs : List ℕ) → length (fit bs) ≡ 32
length-fit bs = omega (
  arith,
  length-take 32 (bs ++ replicate 32 0),
  length-append bs (replicate 32 0),
  length-replicate {A = ℕ} 32 0,
)

pub length-reverse : (bs : List ℕ) → length (reverse bs) ≡ length bs
length-reverse [] = refl
length-reverse (b ∷ bs) =
    ap length (reverse-cons b bs)
    ∙ length-append (reverse bs) (b ∷ [])
    ∙ omega (arith, length-reverse bs)

-- The hashes keep the first bytes; the fields are where a block header has them.
abbrev pub toy : Libraries
toy = record {
  sha256 = fit;
  hash256_merkle_step = λ a b. fit (b ++ a);
  extract_merkle_root_le = λ h. fit (drop 36 h);
  extract_prev_block_hash_le = λ h. fit (drop 4 h);
  extract_timestamp = λ h. from_le_bytes (take 4 (drop 68 h)) % 2 ^ 32;
  extract_target = λ h. 2 ^ 223;
  extract_value = λ h. from_le_bytes (take 8 h);
  reverse_endianness = reverse;
  sha256_width = length-fit;
  merkle_step_width = λ a b. length-fit (b ++ a);
  merkle_root_width = λ h. length-fit (drop 36 h);
  prev_block_hash_width = λ h. length-fit (drop 4 h);
  timestamp_width = λ h. omega arith;
  reverse_width = length-reverse;
  reverse_reverse = reverse-reverse;
}

abbrev pub hash_of : ℕ → H256Le
hash_of n = record { content = n ∷ replicate 31 0 }

abbrev pub header_on : ℕ → BlockHeader
header_on prev = record {
  merkle_root = hash_of 9;
  target = 2 ^ 223;
  timestamp = 1500000000;
  version = 1;
  hash_prev_block = hash_of prev;
  nonce = 5;
}

-- The block of a height, with its number for a hash.
abbrev pub block_at : ℕ → RichBlockHeader
block_at n = record {
  block_hash = hash_of n;
  block_header = header_on n;
  block_height = n;
  chain_ref = 0;
}

abbrev pub main : BlockChain
main = record {
  chain_id = 0;
  chain =
      (100, hash_of 100)
      ∷ (101, hash_of 101)
      ∷ (102, hash_of 102)
      ∷ (103, hash_of 103)
      ∷ (104, hash_of 104)
      ∷ (105, hash_of 105)
      ∷ (106, hash_of 106)
      ∷ [];
  start_height = 100;
  max_height = 106;
  no_data = 101 ∷ [];
  invalid = [];
}

abbrev pub fork : BlockChain
fork = record {
  chain_id = 1;
  chain = (100, hash_of 200) ∷ [];
  start_height = 100;
  max_height = 100;
  no_data = [];
  invalid = [];
}

abbrev pub stored_chain : ℕ → Option BlockChain
stored_chain id = if id == 0 then some main else if id == 1 then some fork else none

abbrev pub stored_header : H256Le → Option RichBlockHeader
stored_header hash = elim hash.content [
  | [] ↦ none
  | n ∷ rest ↦ if leb 100 n then some (block_at n) else none
]

abbrev pub two_chains : Storage
two_chains = record {
  block_headers = stored_header;
  chains = (0, 0) ∷ (1, 1) ∷ [];
  chains_index = stored_chain;
  best_block = some (hash_of 106);
  best_block_height = 106;
  chain_counter = 1;
  events = [];
}

-- A header of 80 bytes, and the proof for the second of two transactions.
abbrev pub raw_header : List ℕ
raw_header = replicate 4 0 ++ 106 ∷ replicate 75 0

abbrev pub raw_proof : List ℕ
raw_proof =
    replicate 80 0
    ++ (2 ∷ 0 ∷ 0 ∷ 0 ∷ [])
    ++ (2 ∷ [])
    ++ (8 ∷ replicate 31 0)
    ++ (9 ∷ replicate 31 0)
    ++ (1 ∷ 5 ∷ [])
