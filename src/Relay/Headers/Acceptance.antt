-- ===== src/Relay/Headers/Acceptance.antt =====
-- Which headers `verify_block_header` of crates/btc-relay/src/lib.rs accepts.
use btc_parachain.Prelude.{◌<◌, ◌≡◌, ◌↔◌, Option-cases, some, none, inl, inr, arith}
use btc_parachain.Prelude.Words.{add32}
use btc_parachain.Prelude.Result.{Result-cases, ok}
use btc_parachain.Libraries.{Libraries}
use btc_parachain.Bitcoin.Types.{RawBlockHeader, BlockHeader, RichBlockHeader}
use btc_parachain.Bitcoin.Hash
use btc_parachain.Bitcoin.Header.{parse_block_header}
use btc_parachain.Relay.Storage.{Storage}
use btc_parachain.BtcCore.{Error}
use btc_parachain.Relay.Headers.{verify_block_header, expected_target}

-- A new header on a stored one, with enough work for the target that the rules give it.
pub record IsAcceptable (lib : Libraries) (raw : RawBlockHeader) (s : Storage) (h : BlockHeader)
    : Type 0 where
  pub prev : RichBlockHeader
  pub is_parsed : parse_block_header {E = Error} lib raw ≡ ok h
  pub is_new : s.block_headers (Hash.sha256d_le lib raw) ≡ none
  pub follows : s.block_headers h.hash_prev_block ≡ some prev
  pub has_work : Hash.as_u256 (Hash.sha256d_le lib raw) < h.target
  pub has_target : expected_target prev (add32 prev.block_height 1) s ≡ ok h.target

module _ (lib : Libraries) (raw : RawBlockHeader) (s : Storage) (h : BlockHeader) where
  accepted : verify_block_header lib raw s ≡ ok h → IsAcceptable lib raw s h
  unfolding verify_block_header
  accepted e = elim (Result-cases (parse_block_header {E = Error} lib raw)) [
    | inr stop ↦ absurd (ground arith)
    | inl (b, p) ↦ elim (Option-cases (s.block_headers b.hash_prev_block)) [
      | inl missing ↦ absurd (ground arith)
      | inr (prev, q) ↦
          let same : b ≡ h = ground arith in
          rw (← same) (record {
            prev = prev;
            is_parsed = p;
            is_new = ground arith;
            follows = q;
            has_work = ground arith;
            has_target = ground arith;
          })
    ]
  ]

  acceptable : IsAcceptable lib raw s h → verify_block_header lib raw s ≡ ok h
  unfolding verify_block_header
  acceptable a = ground (arith, a.is_parsed, a.is_new, a.follows, a.has_work, a.has_target)

  -- A header is accepted exactly if it parses, its hash is not stored yet, it names a stored header
  -- as the previous one, its hash is below its target, and its target is the expected one.
  pub verify_block_header_iff : (verify_block_header lib raw s ≡ ok h) ↔ IsAcceptable lib raw s h
  verify_block_header_iff = (accepted, acceptable)
