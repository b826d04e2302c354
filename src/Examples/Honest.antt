-- ===== src/Examples/Honest.antt =====
-- Examples of raw merkle proofs that are written, read back and accepted.
use btc_parachain.Prelude.{
  ℕ, ◌<◌, zero, suc, ◌≡◌, refl, [], ◌∷◌, ◌^◌, replicate, true, false, List, Bool, arith,
}
use mathlib.Core.List.{flatten}
use btc_parachain.Prelude.Words.{from_le_bytes}
use btc_parachain.Prelude.Result.{ok}
use btc_parachain.Bitcoin.Types.{BlockHeader, Error}
use btc_parachain.Bitcoin.Hash
use btc_parachain.Bitcoin.Hash.{H256Le}
use btc_parachain.Bitcoin.Merkle.Block.{hash_at}
use btc_parachain.Bitcoin.Merkle.BlockProof.{block_proof}
use btc_parachain.Bitcoin.Header.{
  parse_block_header, extract_nonce, extract_version, extract_target, extract_timestamp,
  extract_merkle_root, extract_previous_block_hash,
}
use btc_parachain.Bitcoin.Merkle.Parse.{parse_proof}
use btc_parachain.Bitcoin.Merkle.Raw.{raw_of, parse_proof-raw_of}
use btc_parachain.Relay.Confirmations.{check_confirmations}
use btc_parachain.Relay.Dispatch.{signed_by, verify_transaction_inclusion}
use btc_parachain.Relay.Dispatch.Accepted.{IsSettled, verify_transaction_inclusion_accepts_all}
use btc_parachain.Examples.Data.{toy, hash_of, block_at, two_chains}

abbrev empty_header : BlockHeader
empty_header = record {
  merkle_root = Hash.zero;
  target = 2 ^ 223;
  timestamp = 0;
  version = 0;
  hash_prev_block = Hash.zero;
  nonce = 0;
}

empty_parsed : parse_block_header {E = Error} toy (replicate 80 0) ≡ ok empty_header
unfolding parse_block_header extract_nonce extract_version extract_target extract_timestamp
    extract_merkle_root extract_previous_block_hash from_le_bytes
empty_parsed = refl

abbrev flags : List (List Bool)
flags = (true ∷ false ∷ true ∷ replicate 5 false) ∷ replicate 8 false ∷ []

parse_proof-raw_of_example :
    parse_proof toy (raw_of (replicate 80 0) 2 (hash_of 8 ∷ hash_of 9 ∷ []) flags)
    ≡ ok (record {
      block_header = empty_header;
      transactions_count = 2;
      hashes = hash_of 8 ∷ hash_of 9 ∷ [];
      flag_bits = flatten flags;
    })
parse_proof-raw_of_example =
    parse_proof-raw_of toy (replicate 80 0) empty_header 2 (hash_of 8 ∷ hash_of 9 ∷ []) flags refl
      empty_parsed (omega arith) (omega arith) (refl, (refl, tt)) (omega arith) (refl, (refl, tt))

-- The ids of a block of three transactions, the last of which is proved.
abbrev three : List H256Le
three = hash_of 3 ∷ hash_of 4 ∷ hash_of 9 ∷ []

three-IsHeight : (k : ℕ) → k < 2 → 2 ^ k < 3
three-IsHeight zero below = omega arith
three-IsHeight (suc zero) below = omega arith
three-IsHeight (suc (suc k)) below = absurd (omega (arith, below))

deep_enough : check_confirmations 106 6 100 false ≡ ok tt
unfolding check_confirmations
deep_enough = refl

abbrev settled : IsSettled two_chains 100 (hash_at toy three 2 0) 6 false
settled = record {
  hash = hash_of 100;
  stored = block_at 100;
  in_main_chain = refl;
  is_stored = refl;
  has_root = refl;
  no_race = refl;
  is_deep = deep_enough;
}

verify_transaction_inclusion_accepts_all_example :
    verify_transaction_inclusion toy
      (signed_by 1)
      (hash_of 9)
      100
      (block_proof toy three 2 2 (replicate 80 0))
      6
      false
      two_chains
    ≡ (ok tt, two_chains)
verify_transaction_inclusion_accepts_all_example =
    verify_transaction_inclusion_accepts_all toy three 2 2 (replicate 80 0) empty_header 1 100 6
      false two_chains (refl, (refl, (refl, tt))) (omega arith) (omega arith)
      (omega arith, three-IsHeight) refl empty_parsed settled
