-- ===== src/Lib.antt =====
-- BTC-Parachain: the BTC-Relay, a Bitcoin light client as a Substrate pallet.
--
-- The relay stores Bitcoin block headers, keeps the main chain and the forks, and checks that a
-- transaction is in a block. Its parts, by file:
--
-- Prelude, Prelude/: native numbers and their Boolean tests, lists, integers, machine words, and
--   results with three outcomes: a value, an error, a panic.
-- Libraries: the calls into code that is not modelled, `sha2` and the vendored crates/bitcoin-spv,
--   as one record, with the widths of the arrays that they return as its laws.
-- BtcCore: crates/btc-core/src/lib.rs, `Error` and `From<Error> for DispatchError`.
-- Security: crates/security/src/lib.rs, the storage, `check_parachain_status`,
--   `check_parachain_error`, `check_relayer_registered`.
-- Containers/BTree, Containers/LinkedMap: BTreeMap and BTreeSet as sorted lists, and Substrate's
--   linked map as its entries in the order of `enumerate`.
-- Bitcoin/Hash, Bitcoin/Hex, Bitcoin/Types: crates/bitcoin/src/types.rs and utils.rs, `H256Le` and
--   its conversions (`from_hex_be`, `to_hex_le`, ...), headers, transactions, errors.
-- Bitcoin/Bytes, Header, Tx, Script: crates/bitcoin/src/parser.rs, in its functions' names:
--   `BytesParser`, the impls of `Parsable` (`parse_uint`, `parse_compact`, `parse_vec`, ...),
--   `parse_block_header`, `parse_transaction`, `extract_address_hash`, `extract_op_return_data`.
--   Bytes/Written, Header/Written, Tx/Written, Tx/RoundTrip and Tx/Segwit write what the parser is
--   to read, and Header/Fields is where the fields of a header are.
-- Bitcoin/Merkle: crates/bitcoin/src/merkle.rs, `compute_tree_height`, `traverse_and_extract`,
--   `verify_proof`, `MerkleProof::parse` (`parse_proof`). Partial, Raw, Honest, Block and
--   BlockProof write the partial tree of a block and the bytes of its proof.
-- Relay/: crates/btc-relay/src/lib.rs. Storage: the storage items, events, getters and setters.
--   Chains: `generate_blockchain`, `extend_blockchain`. Headers: `verify_block_header` and
--   `compute_new_target`. Confirmations: `check_confirmations`. Order: `insert_sorted`. Reorg:
--   `swap_main_blockchain` and `check_and_do_reorg`. Flags: `flag_block_error` and
--   `clear_block_error`. Dispatch: `initialize`, `store_block_header` (its part after the checks is
--   `store_verified_header`), `verify_transaction_inclusion`, `validate_transaction`. History:
--   sequences of calls from the empty storage, accepted or refused, and the storages they reach;
--   History/FirstBlock: the block that starts them; History/Tree and History/Refines: the tree of
--   blocks that they hold; History/Listed: the list of their chains, and their best height.
-- Node: parachain/src/chain_spec.rs, and `load_spec` of parachain/src/cli.rs. Node/Network: who is to
--   have an account and who is to be an authority.
-- Examples/: the theorems at concrete inputs, and runs of calls.
--
-- How the code is modelled. A call on the storage is a function from a storage to a result and a
-- storage; a call that fails keeps what it has written. `?`, `ensure!` and early returns are the
-- binds of the two monads. Indexing, slicing and `copy_from_slice` out of range, and the overflow of
-- a U256 product, are a panic, which no caller catches. A map of the storage is a function; a
-- missing key reads as the default value. Integers are native numbers with the wrap-around of a
-- release build written out: u32 and u64 sums and differences, and the shifts by a height. Positions
-- and lengths of byte strings are taken to be below 2 ^ 63.
--
-- Bounds and fuel. The loop of `compute_tree_height` has fuel for 32 rounds. A proof with at most
-- 16666 transactions, which is all that `verify_proof` lets through, needs 15. All other loops are
-- recursions on a list, a position or a count.
--
-- Not modelled. The vendored crates/bitcoin-spv and the hash function are parameters. Where it puts
-- the fields of a header, as it documents them, is a hypothesis of the round trip of headers.
-- crates/priority-map is an empty template. The service of the node and the assembled runtime in
-- parachain/ are glue, and the keys of seeds are a parameter.
-- The functions that encode and decode hexadecimal text are parameters. The checks of the
-- parachain's status are commented out in the relay and so are not in the model.
pub mod Prelude
pub mod Libraries
pub mod BtcCore
pub mod Containers
pub mod Bitcoin
pub mod Security
pub mod Relay
pub mod Node
pub mod Examples
