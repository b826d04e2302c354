-- ===== src/Examples/Order.antt =====
-- Examples of `insert_sorted`, and of the flags of blocks.
use btc_parachain.Prelude.{
  ℕ, zero, suc, ◌≡◌, refl, [], ◌∷◌, true, false, some, arith, length, get_elem?, List,
}
use btc_parachain.Prelude.Result.{ok}
use btc_parachain.Containers.LinkedMap.{lookup}
use btc_parachain.Containers.LinkedMap.Listing.{Holds}
use btc_parachain.Relay.Storage.{Storage, BlockChain, put_chain}
use btc_parachain.Relay.Order.{insert_sorted}
use btc_parachain.Relay.Order.Placing.{Descends}
use btc_parachain.Relay.Order.Insertion.{height_of, insert_sorted-Holds, insert_sorted_keeps_order}
use btc_parachain.Relay.Flags.{flag_block_error, clear_block_error}
use btc_parachain.Relay.Flags.View.{
  is_flagged, code_of, flag_block_error_lem, clear_block_error_lem, no_data,
}
use btc_parachain.Examples.Data.{hash_of, block_at, fork, stored_chain, two_chains}

abbrev higher : BlockChain
higher = record fork { chain_id = 2; max_height = 103 }

abbrev with_higher : Storage
with_higher = record two_chains { chains_index = put_chain 2 (some higher) stored_chain }

-- The two chains of the storage are listed in their order.
listed : Holds two_chains.chains (0 ∷ 1 ∷ [])
listed = record { distinct = (refl, (refl, tt)); size = refl; entries = entry }
  where
    entry : (k : ℕ) → lookup k two_chains.chains ≡ get_elem? (0 ∷ 1 ∷ []) k
    entry zero = refl
    entry (suc zero) = refl
    entry (suc (suc k)) = ground arith

insert_sorted-Holds_example : Holds (insert_sorted higher with_higher).chains (0 ∷ 2 ∷ 1 ∷ [])
insert_sorted-Holds_example =
    insert_sorted-Holds higher with_higher (0 ∷ 1 ∷ []) listed (omega arith)

insert_sorted_keeps_order_example :
    (forks : List ℕ) × Holds (insert_sorted higher with_higher).chains (0 ∷ forks)
    × Descends (height_of with_higher) 106 forks
    × (length forks ≡ 2)
insert_sorted_keeps_order_example =
    insert_sorted_keeps_order higher with_higher 0 106 (1 ∷ []) listed (omega arith) refl
      (omega arith) (omega arith, tt)

flag_block_error_lem_example :
    ((flag_block_error (hash_of 103) (code_of no_data) two_chains).0 ≡ ok tt)
    × (is_flagged no_data 0 103 (flag_block_error (hash_of 103) (code_of no_data) two_chains).1
        ≡ true)
flag_block_error_lem_example =
    flag_block_error_lem (hash_of 103) (block_at 103) two_chains refl no_data no_data 0 103

clear_block_error_lem_example :
    ((clear_block_error (hash_of 101) (code_of no_data) two_chains).0 ≡ ok tt)
    × (is_flagged no_data 0 101 (clear_block_error (hash_of 101) (code_of no_data) two_chains).1
        ≡ false)
clear_block_error_lem_example =
    clear_block_error_lem (hash_of 101) (block_at 101) two_chains refl no_data no_data 0 101
