-- ===== src/Lib.antt =====
-- The core of the Saito node, saito-core/src/core: a ledger of slips in transactions, the chain of
-- blocks, and what peers exchange about it.
--
-- How the parts interact. A transaction spends slips and makes slips; when its block joins the
-- longest chain, each slip changes the UTXO set, a map from keys to `spendable`. The keys hold the
-- whole slip. Blocks are indexed by their ids in a ring of slots, which knows the tip of the longest
-- chain; a new block's branch is compared with the longest chain, and the ring is told which blocks
-- join and which leave. Where the branch is to be the longest chain, the blocks of the old one are
-- unwound and those of the new one wound, one at a time; each of them changes the UTXO set, the ring
-- and the wallet, and old blocks are deleted or downgraded on the way. The mempool holds what is to
-- become a block. Nodes compare their chains by fork ids, ask each other for blocks under a
-- quota, and limit how often a peer may ask.
--
-- The files. Paths of the program such as consensus/slip.rs stand for
-- saito-core/src/core/consensus/slip.rs, and so on.
--   Prelude, Outcome, Bytes, Eq, HashMap: numbers, lists, Rust's results and panics, byte strings
--     with the big-endian formats, equality of keys, and maps as association lists. A slice out of
--     range, an `unwrap` of nothing and a failed `assert!` are a panic, which is a value.
--   Slip: consensus/slip.rs, each function by its name. Slip/Codec and Slip/Reader are about the
--     wire format, Slip/Key about the UTXO keys, Slip/Utxo about the UTXO set.
--   Hop: consensus/hop.rs.
--   Transaction: consensus/transaction.rs. Wire has the reader and the writer, Fees
--     `generate_total_fees`, Work `generate_total_work`, Winner `get_winning_routing_node`, Reorg
--     `on_chain_reorganization` and `delete`, Generate `generate` and `sign`. The field `data` is
--     called `message`.
--   Block: consensus/block.rs. Generate has `generate` and what it calls, Upgrade the changes of the
--     type of a block, Wire the reader and the writer. DoubleSpend is about `generate`, Undo about
--     `on_chain_reorganization`.
--   RingItem and BlockRing: consensus/ringitem.rs and consensus/blockring.rs. Slots reads and writes
--     the slots, Contains is about `add_block`, Longest and Retreat about `on_chain_reorganization`.
--   Blockchain: consensus/blockchain.rs. Chains has the chains that `add_block` compares and
--     `is_new_chain_the_longest_chain`, Tickets `is_golden_ticket_count_valid_`, ForkId
--     `generate_fork_id` and `generate_last_shared_ancestor`. Winding has `validate`, `wind_chain` and
--     `unwind_chain`, over a record of operations on a state, ChainOps, which Ledger/Steps fills;
--     Ledger has the deletion and the downgrading of old blocks, Supply `check_total_supply`, AddBlock
--     `add_block`. The wallet is used through the record WalletOps, which Wallet/Chain fills; the
--     record Env holds what comes from other crates, the configuration and the validation of a block.
--   Wallet: consensus/wallet.rs. Reorg has `on_chain_reorganization` and `delete_block`, Spend
--     `generate_slips`; Balance and Unwind are about these. The record NFT is called Nft.
--   Mempool: consensus/mempool.rs, with what consensus/blockchain.rs does to the mempool.
--   Merkle: consensus/merkle.rs, the generation and the pruning of the tree.
--   SyncState: consensus/blockchain_sync_state.rs.
--   RateLimiter, Version, GoldenTicket, Message: consensus/peers/rate_limiter.rs,
--     process/version.rs, consensus/golden_ticket.rs, msg/block_request.rs and msg/api_message.rs.
--     Message/Services, Message/Ghost, Message/Handshake and Message/Envelope:
--     consensus/peers/peer_service.rs, msg/ghost_chain_sync.rs, msg/handshake.rs and msg/message.rs.
--   The modules called Tests hold examples.
--
-- Bounds and fuel. Numbers are natural numbers; where the Rust type can overflow the wrap is written
-- out, or the overflow is a panic. The walks over chains run on fuel, since a map of blocks could
-- have a cycle; where each known parent has a smaller id, more fuel than the id of the first block
-- and one is enough, which is a theorem of Blockchain/Chains/Collect. The rounds that build a Merkle
-- tree have as fuel the number of leaves, which is enough by the theorem of Merkle/Root. The loop of
-- `validate` runs on fuel and gives `none` when it runs out; Winding/Validate says how much is enough
-- where the new chain is accepted, and Winding/Refused shows a chain for which none is.
--
-- Not modelled. Signatures and hashes come from other crates: they are arguments. Logging, locks,
-- channels, timers, the network and the disk are left out; a block that is loaded from the disk is an
-- argument. So are, up to now, the creation and the validation of a block, which are an argument of
-- the chain, the validation of transactions, staking, the bundling of blocks, the peers, and the burn
-- fee, which is computed in floating point. Maps and sets are lists in the order of insertion, where
-- Rust's are in no order.
pub mod Block
pub mod BlockRing
pub mod Blockchain
pub mod Bytes
pub mod Eq
pub mod GoldenTicket
pub mod HashMap
pub mod Hop
pub mod Mempool
pub mod Merkle
pub mod Message
pub mod Outcome
pub mod Prelude
pub mod RateLimiter
pub mod RingItem
pub mod Slip
pub mod SyncState
pub mod Tests
pub mod Transaction
pub mod Version
pub mod Wallet
