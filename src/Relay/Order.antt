-- ===== src/Relay/Order.antt =====
-- `insert_sorted` of crates/btc-relay/src/lib.rs: a new fork goes into `Chains`, which lists the
-- chains by their heights, from position 1 on.
pub mod Keeps
pub mod Sorting
pub mod Placing
pub mod Shift
pub mod Vacate
pub mod Lists
pub mod Once
pub mod Insertion
use btc_parachain.Prelude.{
  ℕ, zero, suc, ◌+◌, ◌-◌, ◌%◌, ◌^◌, true, false, List, [], ◌∷◌, length, drop, ltb, leb,
  if◌then◌else◌,
}
use btc_parachain.Prelude.Words.{add32, sub32}
use btc_parachain.Containers.LinkedMap.{LinkedMap}
use btc_parachain.Relay.Storage.{
  Storage, BlockChain, get_block_chain_from_id, set_chain_from_position_and_id, swap_chain,
}

-- `sort_by_key(|k| k.0)` is stable.
unfoldable pub insert_by_key : ℕ × ℕ → List (ℕ × ℕ) → List (ℕ × ℕ)
insert_by_key e [] = e ∷ []
insert_by_key e (f ∷ l) = if leb e.0 f.0 then e ∷ f ∷ l else f ∷ insert_by_key e l

unfoldable pub sort_by_key : List (ℕ × ℕ) → List (ℕ × ℕ)
sort_by_key [] = []
sort_by_key (e ∷ l) = insert_by_key e (sort_by_key l)

-- The loop that finds the first position whose chain is not higher than the new one.
unfoldable pub find_slot : Storage → ℕ → ℕ → List (ℕ × ℕ) → ℕ
find_slot s height default [] = default
find_slot s height default ((curr_position, curr_chain_id) ∷ l) =
    if leb (get_block_chain_from_id curr_chain_id s).max_height height
    then curr_position
    else find_slot s height default l

-- `for curr_position in (first..first + rounds).rev()`
unfoldable pub shift_loop : ℕ → ℕ → ℕ → Storage → Storage
shift_loop zero first position_blockchain s = s
shift_loop (suc rounds) first position_blockchain s =
    elim (ltb (first + rounds) position_blockchain) [
      | true ↦ s
      | false ↦
          shift_loop rounds first position_blockchain
            (swap_chain (first + rounds) (sub32 (first + rounds) 1) s)
    ]

unfoldable pub insert_sorted : BlockChain → Storage → Storage
insert_sorted blockchain s =
    let max_chain_element = length s.chains % 2 ^ 32 in
    let position_blockchain =
      find_slot s blockchain.max_height max_chain_element (drop 1 (sort_by_key s.chains)) in
    shift_loop (add32 max_chain_element 1 - add32 position_blockchain 1)
      (add32 position_blockchain 1) position_blockchain
      (set_chain_from_position_and_id max_chain_element blockchain.chain_id s)
