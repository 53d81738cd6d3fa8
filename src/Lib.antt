-- ===== src/Lib.antt =====
-- bip110-crawler: a crawler of the Bitcoin peer-to-peer network that surveys how many nodes are
-- ready for BIP-110. Worker threads share a frontier of peers; a worker probes a peer (handshake,
-- `getaddr`, `getheaders`), records what it learned, and queues the peers it was told of. The
-- records feed aggregates, a chain-split assessment, and a database behind an HTTP API.
--
-- Which file models which part of the repository:
-- - Common: native numbers, lists, byte slices and cursors, byte orders, errors, texts as lists of
--   code points with the string operations of the standard library, integers, hexadecimal, maps as
--   association lists (a BTreeMap keeps its keys ascending), stable sorting.
-- - P2p/Wire (src/p2p.rs: write_varint, read_varint, read_array): a position in a payload is an
--   explicit number that a read returns moved on.
-- - P2p/Frame (src/p2p.rs: checksum, build_message, read_message): a stream is the bytes that are
--   still to come; the end of the stream is the error `stream_closed`.
-- - P2p/Headers (src/p2p.rs: build_getheaders, parse_headers, peer_hash_at, hash_hex).
-- - P2p/Peer, P2p/Addr (src/p2p.rs: Peer with its parser and its text, ip_to_16, onion_v3_host, parse_addr, parse_addrv2).
-- - P2p/Version, P2p/Socks, P2p/Session (src/p2p.rs: NetworkParams, build_version_payload,
--   parse_version_payload, socks5_connect, probe_peer): a probe as a function of what the other side
--   sends.
-- - Node, Node/UserAgent (src/node.rs: NodeInfo, classify_user_agent, assess_bip110).
-- - Node/Latency, Node/ChainSplit, Node/Aggregates (src/node.rs: latency_histogram,
--   assess_chain_split, Aggregates::from_nodes).
-- - History (src/history.rs: merge).
-- - Rpc/Transactions, Rpc/Payload, Rpc/Coinbase, Rpc/Signalling (src/rpc.rs: analyze_block,
--   parse_coinbase_tag, signalling), on replies that serde_json has decoded.
-- - Rpc/Blocks, Rpc/Replies (src/rpc.rs: block_info, recent_blocks, blocks_at_heights, block_stats; call,
--   network_info, peer_info, chain_tips, coinbase_tag; Fees holds mempool_snapshot, Auth the
--   credentials).
-- - Locator (src/main.rs: build_locator; src/rpc.rs: block_hash_at).
-- - Time (src/time.rs).
-- - Crawler/Tasks (src/crawler.rs: next_task, finish_task): one round under the frontier's lock.
-- - Crawler/Worker (src/crawler.rs: worker): the retry loop, the records, and the loop over the
--   discovered peers.
-- - Crawler/System (src/crawler.rs: crawl, worker): a step relation on the shared state and all
--   workers. Its grain is the source's locks: one action is one critical section or one probe.
--   Condition variables may wake a worker spuriously. Start holds resume, seeds and the
--   pools; Save holds save_state; Ends the measure that bounds a run.
-- - Db (src/db.rs): a table is the list of its rows, and a statement is what its SQL text says of
--   them. Nodes holds the upsert and the row of a node, Snapshot write_snapshot with its history and
--   prune_and_vacuum, Blocks the explorer's table, Report read_report, Table the paged node
--   table with the LIKE of Like, Stats the ticker and the statistics. The blocks are kept with the highest
--   height first, as the queries read them.
-- - Serve (src/serve.rs): Query holds parse_query and pct_decode; InFlight the requests in flight, as a
--   step relation of the dispatcher threads, whose steps are the atomic operations on the counter; Routes
--   the answer to a request (handle), and Static the answers that read no database.
-- - Report (src/report.rs): html_escape, the page of donations, the nav and the dashboard.
-- - Geo (src/geo.rs): the batches and the cache.
-- - Cycle (src/main.rs): Seeds holds what run_cycle gathers before the crawl, Assemble the way from nodes and edges to the report
--   (reachable_only, cap_report, assemble_report, geolocate_map), Refresh the work on a new block, and
--   Snapshot the snapshot callback that composes them; Finish holds the end of a cycle.
-- - Examples: the theorems at concrete inputs, with test cases of the source.
--
-- Bounds and fuel: loops over a wire count recurse on the count, capped as in the source (2,000
-- headers, 1,000 addresses). `drain` of base32 has fuel 3, one more than the two groups of five
-- bits that one byte can complete. The handshake reads at most 20 messages, as in the source, and the
-- collecting loop has the rounds that the clock allows. Counters of the source (u32, usize) that count list entries are
-- unbounded numbers here; the machine words of the wire (u16, u32, u64) keep their widths. Two operations on
-- command-line values can leave their word: the days that the database is pruned by, in seconds (a u64 product), and the shift by
-- `--signal-bit` (an i64). They are modelled as a release build computes them, modulo 2^64 and by the shift
-- modulo 64; a debug build panics there.
--
-- The statements of SQL compare and add within 64 bits; a u64 is stored as the i64 of its bits.
--
-- Parameters: SHA-256 and SHA3-256 (crates), lower-casing beyond ASCII (the Unicode tables), the
-- lossy UTF-8 decoder, the text of a peer and its parser (in the crawl), the clock, the nonce, what
-- a probe brings (in the crawl), f64 with the operations that are used of it, the JSON texts of
-- serde_json, the texts of pages and of errors, what the node and the geolocation service answer, and the parser of IP addresses.
-- SQLite is taken to run each statement without a failure, except that a transaction that is not
-- committed leaves nothing.
--
-- Not modelled: opening and migrating the database file, the pages of src/report.rs that only assemble files of web/, JSON text,
-- the support files of src/serve.rs, sockets and threads themselves, command-line parsing, and file
-- input and output.
pub mod Common
pub mod P2p
pub mod Node
pub mod Crawler
pub mod History
pub mod Rpc
pub mod Locator
pub mod Time
pub mod Db
pub mod Serve
pub mod Geo
pub mod Report
pub mod Cycle
pub mod Examples
