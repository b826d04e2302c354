-- ===== src/Examples/Submission.antt =====
-- Examples of `store_block_header` on raw bytes.
use btc_parachain.Prelude.{◌≡◌, refl, [], ◌∷◌, some, none, arith, ◌^◌, ◌<◌}
use btc_parachain.Prelude.Words.{from_le_bytes}
use btc_parachain.Prelude.Result.{ok}
use btc_parachain.BtcCore.{Error}
use btc_parachain.Bitcoin.Types.{BlockHeader}
use btc_parachain.Bitcoin.Hash.{zero, as_u256, sha256d_le, sha256d}
use btc_parachain.Bitcoin.Header.{
  parse_block_header, extract_nonce, extract_version, extract_target, extract_timestamp,
  extract_merkle_root, extract_previous_block_hash,
}
use btc_parachain.Relay.Storage.{put_header, put_chain, store_main_chain_header}
use btc_parachain.Relay.Headers.{expected_target}
use btc_parachain.Relay.Headers.Acceptance.{IsAcceptable}
use btc_parachain.Relay.Dispatch.{signed_by, store_block_header}
use btc_parachain.Relay.Dispatch.Extension.{rich}
use btc_parachain.Relay.Dispatch.Submission.{store_block_header_extends}
use btc_parachain.Examples.Data.{toy, raw_header, hash_of, block_at, main, stored_chain, two_chains}

abbrev next_header : BlockHeader
next_header = record {
  merkle_root = zero;
  target = 2 ^ 223;
  timestamp = 0;
  version = 0;
  hash_prev_block = hash_of 106;
  nonce = 0;
}

next_parsed : parse_block_header {E = Error} toy raw_header ≡ ok next_header
unfolding parse_block_header extract_nonce extract_version extract_target extract_timestamp
    extract_merkle_root extract_previous_block_hash from_le_bytes
next_parsed = refl

next_is_new : two_chains.block_headers (sha256d_le toy raw_header) ≡ none
unfolding sha256d_le sha256d
next_is_new = refl

next_has_work : as_u256 (sha256d_le toy raw_header) < 2 ^ 223
unfolding as_u256 sha256d_le sha256d from_le_bytes
next_has_work = omega arith

next_has_target : expected_target (block_at 106) 107 two_chains ≡ ok (2 ^ 223)
unfolding expected_target
next_has_target = refl

abbrev acceptance : IsAcceptable toy raw_header two_chains next_header
acceptance = record {
  prev = block_at 106;
  is_parsed = next_parsed;
  is_new = next_is_new;
  follows = refl;
  has_work = next_has_work;
  has_target = next_has_target;
}

store_block_header_extends_example : store_block_header toy (signed_by 1) raw_header two_chains ≡ (
  ok tt,
  record two_chains {
    block_headers =
        put_header
          (sha256d_le toy raw_header)
          (rich (sha256d_le toy raw_header) next_header 107 0)
          two_chains.block_headers;
    chains_index = put_chain 0 (some main) stored_chain;
    best_block = some (sha256d_le toy raw_header);
    best_block_height = 107;
    events = store_main_chain_header 107 (sha256d_le toy raw_header) ∷ [];
  },
)
store_block_header_extends_example =
    store_block_header_extends toy 1 raw_header two_chains refl next_header acceptance refl refl
      refl refl
