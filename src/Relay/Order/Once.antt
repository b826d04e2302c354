-- ===== src/Relay/Order/Once.antt =====
-- Lists of chain ids without repetition, when crates/btc-relay/src/lib.rs puts a chain in, exchanges two
-- or takes one away.
use btc_parachain.Prelude.{
  ℕ, zero, suc, ◌-◌, ◌<◌, ◌≡◌, ◌≢◌, ◌⊎◌, refl, ap, sym, ◌∙◌, some, List, [], ◌∷◌, length, get_elem?,
  ltb, ◌==◌, if◌then◌else◌, arith, inl, inr, Bool-cases,
}
use btc_parachain.Relay.Order.Placing.{slot, place, place_fork, get_elem?-place}
use btc_parachain.Relay.Order.Vacate.{vacate, get_elem?-vacate, get_elem?-last}
use btc_parachain.Relay.Order.Lists.{Lists, exchange, get_elem?-exchange, position_below}

-- No id stands at two positions.
abbrev pub Once : List ℕ → Type 0
Once ids = (j k v : ℕ) → get_elem? ids j ≡ some v → get_elem? ids k ≡ some v → j ≡ k

module _ (heights : ℕ → ℕ) (height id : ℕ) where
  -- Where an entry comes from: it is the new one, or an old one.
  place_source :
      (xs : List ℕ) (k v : ℕ)
      → get_elem? (place heights height id xs) k ≡ some v
      → ((k ≡ slot heights height xs) × (v ≡ id))
        ⊎ ((k < slot heights height xs) × (get_elem? xs k ≡ some v))
        ⊎ ((slot heights height xs < k) × (get_elem? xs (k - 1) ≡ some v))
  place_source xs k v e =
      let view = get_elem?-place heights height id xs k in
      elim (Bool-cases (ltb k (slot heights height xs))) [
        | inl before ↦ inr (inl (ground arith, ground arith))
        | inr behind ↦ elim (Bool-cases (k == slot heights height xs)) [
          | inl here ↦ inl (ground arith, ground arith)
          | inr after ↦ inr (inr (ground arith, ground arith))
        ]
      ]

  Once-place :
      (xs : List ℕ)
      → ((k : ℕ) → get_elem? xs k ≢ some id)
      → Once xs
      → Once (place heights height id xs)
  Once-place xs fresh once j k v a b = elim (place_source xs j v a) [
    | inl (at, new) ↦ elim (place_source xs k v b) [
      | inl (at', new') ↦ at ∙ sym at'
      | inr (inl (lt, old)) ↦ absurd (fresh k (old ∙ ap some new))
      | inr (inr (lt, old)) ↦ absurd (fresh (k - 1) (old ∙ ap some new))
    ]
    | inr (inl (lt, old)) ↦ elim (place_source xs k v b) [
      | inl (at', new') ↦ absurd (fresh j (old ∙ ap some new'))
      | inr (inl (lt', old')) ↦ once j k v old old'
      | inr (inr (lt', old')) ↦
          let same = once j (k - 1) v old old' in absurd (omega (arith, same, lt, lt'))
    ]
    | inr (inr (lt, old)) ↦ elim (place_source xs k v b) [
      | inl (at', new') ↦ absurd (fresh (j - 1) (old ∙ ap some new'))
      | inr (inl (lt', old')) ↦
          let same = once (j - 1) k v old old' in absurd (omega (arith, same, lt, lt'))
      | inr (inr (lt', old')) ↦
          let same = once (j - 1) (k - 1) v old old' in omega (arith, same, lt, lt')
    ]
  ]

  -- The first chain is not among the others.
  away :
      (main : ℕ) (forks : List ℕ)
      → ((k : ℕ) → get_elem? (main ∷ forks) k ≢ some id)
      → Once (main ∷ forks)
      → (k v : ℕ) → some main ≡ some v
      → get_elem? (place heights height id forks) k ≢ some v
  away main forks fresh once k v a b = elim (place_source forks k v b) [
    | inl (at, new) ↦ fresh 0 (a ∙ ap some new)
    | inr (inl (lt, old)) ↦ let same = once 0 (suc k) v a old in absurd (omega (arith, same))
    | inr (inr (lt, old)) ↦ let same = once 0 (suc (k - 1)) v a old in absurd (omega (arith, same))
  ]

  -- A new id among the forks is not listed twice.
  pub Once-place_fork :
      (ids : List ℕ)
      → ((k : ℕ) → get_elem? ids k ≢ some id)
      → Once ids
      → Once (place_fork heights height id ids)
  Once-place_fork [] fresh once zero zero v a b = refl
  Once-place_fork [] fresh once zero (suc k) v a b = absurd (ground arith)
  Once-place_fork [] fresh once (suc j) k v a b = absurd (ground arith)
  Once-place_fork (main ∷ forks) fresh once zero zero v a b = refl
  Once-place_fork (main ∷ forks) fresh once zero (suc k) v a b =
      absurd (away main forks fresh once k v a b)
  Once-place_fork (main ∷ forks) fresh once (suc j) zero v a b =
      absurd (away main forks fresh once j v b a)
  Once-place_fork (main ∷ forks) fresh once (suc j) (suc k) v a b =
      let tail : Once forks = λ i l w x y. omega (arith, once (suc i) (suc l) w x y) in
      ap suc (Once-place forks (λ i. fresh (suc i)) tail j k v a b)

  -- What is listed after is the new chain, or was listed before.
  pub Lists-place_fork_from :
      (ids : List ℕ) (k v : ℕ)
      → get_elem? (place_fork heights height id ids) k ≡ some v
      → (v ≡ id) ⊎ Lists ids v
  Lists-place_fork_from [] zero v e = inl (ground arith)
  Lists-place_fork_from [] (suc k) v e = absurd (ground arith)
  Lists-place_fork_from (main ∷ forks) zero v e = inr (0, e)
  Lists-place_fork_from (main ∷ forks) (suc k) v e = elim (place_source forks k v e) [
    | inl (at, new) ↦ inl new
    | inr (inl (lt, old)) ↦ inr (suc k, old)
    | inr (inr (lt, old)) ↦ inr (suc (k - 1), old)
  ]

module _ (ids : List ℕ) (p gone : ℕ) (at : get_elem? ids p ≡ some gone) where
  vacate_source :
      (k v : ℕ)
      → get_elem? (vacate p ids) k ≡ some v
      → (suc k < length ids)
        × (((k ≡ p) × (get_elem? ids (length ids - 1) ≡ some v))
            ⊎ ((k ≢ p) × (get_elem? ids k ≡ some v)))
  vacate_source k v e =
      let lt = position_below ids p gone at in
      let view = get_elem?-vacate p ids lt k in
      elim (Bool-cases (ltb (suc k) (length ids))) [
        | inr beyond ↦ absurd (ground arith)
        | inl inside ↦ elim (Bool-cases (k == p)) [
          | inl here ↦ (
            ground arith,
            inl (
              ground arith,
              get_elem?-last ids (length ids - 1) (omega (arith, lt)) ∙ ground arith,
            ),
          )
          | inr away ↦ (ground arith, inr (ground arith, ground arith))
        ]
      ]

  pub Lists-vacate_from : (k v : ℕ) → get_elem? (vacate p ids) k ≡ some v → Lists ids v
  Lists-vacate_from k v e = elim (vacate_source k v e).1 [
    | inl (here, old) ↦ (length ids - 1, old)
    | inr (away, old) ↦ (k, old)
  ]

  -- No id is listed twice when one is taken away and the last one moves to its position.
  pub Once-vacate : Once ids → Once (vacate p ids)
  Once-vacate once j k v a b =
      let (lt_j, from_j) = vacate_source j v a in
      let (lt_k, from_k) = vacate_source k v b in
      elim from_j [
        | inl (here, old) ↦ elim from_k [
          | inl (here', old') ↦ here ∙ sym here'
          | inr (away', old') ↦
              let same = once (length ids - 1) k v old old' in absurd (omega (arith, same, lt_k))
        ]
        | inr (away, old) ↦ elim from_k [
          | inl (here', old') ↦
              let same = once j (length ids - 1) v old old' in absurd (omega (arith, same, lt_j))
          | inr (away', old') ↦ once j k v old old'
        ]
      ]

module _ (p q v w : ℕ) (ids : List ℕ) (at_p : get_elem? ids p ≡ some v)
    (at_q : get_elem? ids q ≡ some w) where
  abbrev source : ℕ → ℕ
  source k = if k == p then q else if k == q then p else k

  exchange-source :
      (k : ℕ) → get_elem? (exchange p q v w ids at_p at_q) k ≡ get_elem? ids (source k)
  exchange-source k = elim (Bool-cases (k == p)) [
    | inl first ↦ ground (arith, get_elem?-exchange p q v w ids at_p at_q k)
    | inr away ↦ elim (Bool-cases (k == q)) [
      | inl second ↦ ground (arith, get_elem?-exchange p q v w ids at_p at_q k)
      | inr other ↦ ground (arith, get_elem?-exchange p q v w ids at_p at_q k)
    ]
  ]

  pub Lists-exchange_from :
      (k u : ℕ) → get_elem? (exchange p q v w ids at_p at_q) k ≡ some u → Lists ids u
  Lists-exchange_from k u e = (source k, sym (exchange-source k) ∙ e)

  -- No id is listed twice when two change places.
  pub Once-exchange : Once ids → Once (exchange p q v w ids at_p at_q)
  Once-exchange once j k u a b =
      let same =
        once (source j) (source k) u (sym (exchange-source j) ∙ a) (sym (exchange-source k) ∙ b) in
      ground (arith, same)
