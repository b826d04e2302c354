-- ===== src/Relay/History/Keeps.antt =====
-- What a part of a call of crates/btc-relay/src/lib.rs is to do with a consistent storage.
use btc_parachain.Prelude.{◌≡◌, ◌∙◌, sym, none}
use btc_parachain.Bitcoin.Hash.{H256Le}
use btc_parachain.Relay.Storage.{Storage}
use btc_parachain.Relay.History.{Headers, Grows, Grows-refl, Grows-trans, IsConsistent}

-- No header is new.
abbrev pub Within : Headers → Headers → Type 0
Within f f' = (hash : H256Le) → f hash ≡ none → f' hash ≡ none

-- What a call is to do: keep a consistent storage so, and its headers.
pub record Extends (genesis : H256Le) (s s' : Storage) : Type 0 where
  pub consistent : IsConsistent genesis s'
  pub grows : Grows s.block_headers s'.block_headers

-- What a part of a call that stores no header is to do.
pub record Keeps (genesis : H256Le) (s s' : Storage) : Type 0 where
  pub consistent : IsConsistent genesis s'
  pub grows : Grows s.block_headers s'.block_headers
  pub within : Within s.block_headers s'.block_headers

pub Keeps-Extends : (genesis : H256Le) (s s' : Storage) → Keeps genesis s s' → Extends genesis s s'
Keeps-Extends genesis s s' k = record { consistent = k.consistent; grows = k.grows }

pub Extends-refl : (genesis : H256Le) (s : Storage) → IsConsistent genesis s → Extends genesis s s
Extends-refl genesis s c = record { consistent = c; grows = Grows-refl s.block_headers }

pub Extends-trans :
    (genesis : H256Le) (s t u : Storage)
    → Extends genesis s t
    → Extends genesis t u
    → Extends genesis s u
Extends-trans genesis s t u a b = record {
  consistent = b.consistent;
  grows = Grows-trans s.block_headers t.block_headers u.block_headers a.grows b.grows;
}

pub Keeps-refl : (genesis : H256Le) (s : Storage) → IsConsistent genesis s → Keeps genesis s s
Keeps-refl genesis s c = record {
  consistent = c;
  grows = Grows-refl s.block_headers;
  within = λ hash e. e;
}

pub Keeps-trans :
    (genesis : H256Le) (s t u : Storage) → Keeps genesis s t → Keeps genesis t u → Keeps genesis s u
Keeps-trans genesis s t u a b = record {
  consistent = b.consistent;
  grows = Grows-trans s.block_headers t.block_headers u.block_headers a.grows b.grows;
  within = λ hash e. b.within hash (a.within hash e);
}

-- Other parts of the storage do not matter.
pub IsConsistent-along :
    (genesis : H256Le) (s s' : Storage)
    → s'.block_headers ≡ s.block_headers
    → s'.chains_index ≡ s.chains_index
    → s'.best_block ≡ s.best_block
    → s'.best_block_height ≡ s.best_block_height
    → IsConsistent genesis s
    → IsConsistent genesis s'
IsConsistent-along genesis s s' a b c d k = record {
  stored_hash = rw a k.stored_hash;
  linked = rw a k.linked;
  blocks = rw (a, b) k.blocks;
  tip = k.tip;
  tip_header = k.tip_header;
  best = c ∙ k.best;
  tip_stored = rw a k.tip_stored;
  tip_height = k.tip_height ∙ sym d;
}
