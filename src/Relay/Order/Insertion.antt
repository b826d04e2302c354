-- ===== src/Relay/Order/Insertion.antt =====
-- `insert_sorted` of crates/btc-relay/src/lib.rs as an insertion into the list of the chains.
use btc_parachain.Prelude.{
  ℕ, zero, suc, ◌+◌, ◌-◌, ◌%◌, ◌^◌, ◌≤◌, ◌<◌, ◌≡◌, refl, ap, sym, ◌∙◌, none, some, List, [], ◌∷◌,
  length, get_elem?, get_elem?-lt, drop, ltb, ◌==◌, if◌then◌else◌, arith, inl, inr, Bool-cases,
}
use btc_parachain.Prelude.Words.{add32}
use btc_parachain.Containers.LinkedMap.{lookup, insert, lookup-insert}
use btc_parachain.Containers.LinkedMap.Listing.{Holds, Distinct-insert_new, length-insert_new}
use btc_parachain.Containers.LinkedMap.Stacked.{Stacked, Stacked-insert_new, Stacked-swap}
use btc_parachain.Relay.Storage.{
  Storage, BlockChain, get_block_chain_from_id, set_chain_from_position_and_id,
}
use btc_parachain.Relay.Order.{find_slot, shift_loop, insert_sorted}
use btc_parachain.Relay.Order.Sorting.{numbered, sort_by_key-numbered}
use btc_parachain.Relay.Order.Placing.{
  place, place_fork, slot, slot-le, length-place, get_elem?-place, get_elem?-ge, Descends,
  place-Descends,
}
use btc_parachain.Relay.Order.Shift.{Full, lookup-shift_loop, shift_loop_size, shift_loop_invariant}

abbrev pub height_of : Storage → ℕ → ℕ
height_of s id = (get_block_chain_from_id id s).max_height

find_slot-numbered :
    (s : Storage) (height n d : ℕ) (xs : List ℕ)
    → d ≡ n + length xs
    → find_slot s height d (numbered n xs) ≡ n + slot (height_of s) height xs
unfolding find_slot
find_slot-numbered s height n d [] e = omega arith
find_slot-numbered s height n d (x ∷ xs) e =
    ground (arith, find_slot-numbered s height (suc n) d xs (omega arith))

module _ (b : BlockChain) (s : Storage) where
  -- The position of the new chain, by the list of the chains.
  abbrev position : List ℕ → ℕ
  position [] = 0
  position (main ∷ forks) = suc (slot (height_of s) b.max_height forks)

  find_slot_lem :
      (ids : List ℕ)
      → find_slot s b.max_height (length ids) (drop 1 (numbered 0 ids)) ≡ position ids
  find_slot_lem [] = unfold find_slot in refl
  find_slot_lem (main ∷ forks) =
      find_slot-numbered s b.max_height 1 (suc (length forks)) forks (omega arith) ∙ omega arith

  position-le : (ids : List ℕ) → position ids ≤ length ids
  position-le [] = omega arith
  position-le (main ∷ forks) = omega (arith, slot-le (height_of s) b.max_height forks)

  module _ (ids : List ℕ) (h : Holds s.chains ids) (small : length ids + 1 < 2 ^ 32) where
    insert_sorted-shift :
        insert_sorted b s
        ≡ shift_loop
            (length ids - position ids)
            (position ids + 1)
            (position ids)
            (set_chain_from_position_and_id (length ids) b.chain_id s)
    unfolding insert_sorted
    insert_sorted-shift =
        let n : length s.chains % 2 ^ 32 ≡ length ids = omega (arith, h.size) in
        let n₁ : add32 (length ids) 1 ≡ length ids + 1 = omega arith in
        let p₁ : add32 (position ids) 1 ≡ position ids + 1 = omega (arith, position-le ids) in
        let r : length ids + 1 - (position ids + 1) ≡ length ids - position ids = omega arith in
        rw (sort_by_key-numbered s.chains ids h, n) (rw (find_slot_lem ids) (rw (n₁, p₁) (rw r)))

    -- Where the entries of `Chains` before the loop are found after it.
    placed_entries :
        (k : ℕ)
        → lookup k (insert_sorted b s).chains ≡ (
            if ltb k (position ids)
            then get_elem? ids k
            else if k == position ids
            then some b.chain_id
            else get_elem? ids (k - 1))
    placed_entries k =
        let le = position-le ids in
        let end : position ids + (length ids - position ids) ≡ length ids = omega arith in
        let shift =
          lookup-shift_loop (position ids) (length ids - position ids)
            (set_chain_from_position_and_id (length ids) b.chain_id s) (omega arith) k in
        let ends : lookup (position ids + (length ids - position ids))
              (insert (length ids) b.chain_id s.chains)
            ≡ some b.chain_id =
          lookup-insert (position ids + (length ids - position ids)) (length ids) b.chain_id
            s.chains
          ∙ ground arith in
        ap (λ (t : Storage). lookup k t.chains) insert_sorted-shift
        ∙ shift
        ∙ ground (
          arith,
          ends,
          lookup-insert (k - 1) (length ids) b.chain_id s.chains,
          lookup-insert k (length ids) b.chain_id s.chains,
          h.entries (k - 1),
          h.entries k,
          get_elem?-ge ids k,
          get_elem?-ge ids (k - 1),
        )

    get_elem?-place_fork :
        (k : ℕ)
        → get_elem? (place_fork (height_of s) b.max_height b.chain_id ids) k ≡ (
            if ltb k (position ids)
            then get_elem? ids k
            else if k == position ids
            then some b.chain_id
            else get_elem? ids (k - 1))
    get_elem?-place_fork k = by_list ids k
      where
        by_list :
            (l : List ℕ) (j : ℕ)
            → get_elem? (place_fork (height_of s) b.max_height b.chain_id l) j ≡ (
                if ltb j (position l)
                then get_elem? l j
                else if j == position l
                then some b.chain_id
                else get_elem? l (j - 1))
        by_list [] zero = refl
        by_list [] (suc j) = ground arith
        by_list (main ∷ forks) zero = ground arith
        by_list (main ∷ forks) (suc zero) =
            ground (arith, get_elem?-place (height_of s) b.max_height b.chain_id forks 0)
        by_list (main ∷ forks) (suc (suc j)) =
            let one : suc (suc j) - 1 ≡ suc j = omega arith in
            let two : suc j - 1 ≡ j = omega arith in
            ground (
              arith,
              get_elem?-place (height_of s) b.max_height b.chain_id forks (suc j),
              ap (get_elem? (main ∷ forks)) one,
              ap (get_elem? forks) two,
            )

    free : lookup (length ids) s.chains ≡ none
    free = h.entries (length ids) ∙ get_elem?-ge ids (length ids) (omega arith)

    full :
        Full
          (position ids + (length ids - position ids) + 1)
          (insert (length ids) b.chain_id s.chains)
    full k lt = elim (Bool-cases (k == length ids)) [
      | inl last ↦ (b.chain_id, lookup-insert k (length ids) b.chain_id s.chains ∙ ground arith)
      | inr old ↦
          let le = position-le ids in
          let (v, e) = get_elem?-lt ids k (ground arith) in
          (v, lookup-insert k (length ids) b.chain_id s.chains ∙ ground (arith, h.entries k))
    ]

    shift_small : position ids + (length ids - position ids) + 1 < 2 ^ 32
    shift_small = omega (arith, position-le ids)

    pub insert_sorted-Stacked : Stacked s.chains → Stacked (insert_sorted b s).chains
    insert_sorted-Stacked st =
        let inserted : Stacked (insert (length ids) b.chain_id s.chains) =
          rw (← h.size) (Stacked-insert_new b.chain_id s.chains (rw h.size free) st) in
        rw insert_sorted-shift (
          shift_loop_invariant (position ids) Stacked Stacked-swap (length ids - position ids)
            (set_chain_from_position_and_id (length ids) b.chain_id s) shift_small full inserted)

    -- Where `Chains` holds a list of chain ids that is shorter than 2 ^ 32 - 1, it holds after
    -- `insert_sorted` that list with the new id in front of the first fork that is not higher than
    -- the new chain, or at the end; the first chain keeps its place.
    pub insert_sorted-Holds :
        Holds (insert_sorted b s).chains (place_fork (height_of s) b.max_height b.chain_id ids)
    insert_sorted-Holds =
        let kept =
          shift_loop_size (position ids) (length ids - position ids)
            (set_chain_from_position_and_id (length ids) b.chain_id s) shift_small full
            (Distinct-insert_new (length ids) b.chain_id s.chains free h.distinct) in
        record {
          distinct = rw insert_sorted-shift kept.0;
          size =
              ap (λ (t : Storage). length t.chains) insert_sorted-shift
              ∙ kept.1
              ∙ length-insert_new (length ids) b.chain_id s.chains free
              ∙ ap suc h.size
              ∙ sym (length-place_fork ids);
          entries = λ k. placed_entries k ∙ sym (get_elem?-place_fork k);
        }
      where
        length-place_fork :
            (l : List ℕ)
            → length (place_fork (height_of s) b.max_height b.chain_id l) ≡ suc (length l)
        length-place_fork [] = refl
        length-place_fork (main ∷ forks) =
            ap suc (length-place (height_of s) b.max_height b.chain_id forks)

-- Where `Chains` holds a main chain and fewer than 2 ^ 32 - 2 forks whose heights do not rise: a
-- new chain that is stored under its id, and is no higher than the bound of the forks, is listed
-- among them so that their heights still do not rise, behind the same first chain.
pub insert_sorted_keeps_order :
    (b : BlockChain) (s : Storage) (main top : ℕ) (forks : List ℕ)
    → Holds s.chains (main ∷ forks)
    → length forks + 2 < 2 ^ 32
    → get_block_chain_from_id b.chain_id s ≡ b
    → b.max_height ≤ top
    → Descends (height_of s) top forks
    → (forks' : List ℕ) × Holds (insert_sorted b s).chains (main ∷ forks')
      × Descends (height_of s) top forks'
      × (length forks' ≡ length forks + 1)
insert_sorted_keeps_order b s main top forks h small stored le d = (
  place (height_of s) b.max_height b.chain_id forks,
  insert_sorted-Holds b s (main ∷ forks) h (omega arith),
  place-Descends (height_of s) b.max_height b.chain_id top forks
      (ap (λ (c : BlockChain). c.max_height) stored) le d,
  omega (arith, length-place (height_of s) b.max_height b.chain_id forks),
)
