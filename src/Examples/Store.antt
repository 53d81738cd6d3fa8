-- ===== src/Examples/Store.antt =====
-- The store and the API at concrete inputs (src/db.rs, src/serve.rs).
use bip110_crawler.Common.{
  ◌==◌, count, ◌⊎◌, ℕ, ◌*◌, ◌≤◌, ◌≡◌, ◌^◌, refl, true, false, List, [], ◌∷◌, Option, none, some,
  All, length, codes, Bytes, pos, list_eq, filter, err, ok, keep_days_zero, arith, to_digit_16,
  sort_with,
}
use bip110_crawler.Node.{NodeInfo, Edge, not_enforcing}
use bip110_crawler.Node.Aggregates.{from_nodes}
use bip110_crawler.Rpc.Blocks.{BlockInfo}
use bip110_crawler.Time.{iso_secs_ago}
use bip110_crawler.Db.Nodes.{GeoInfo, NodeRecord, bind, find_row, flag, to_i64, row_to_node}
use bip110_crawler.Db.Nodes.Keeps.{Keeps, reported}
use bip110_crawler.Db.Blocks.{BlockRow, write_blocks}
use bip110_crawler.Db.Blocks.Pages.{Descending, read_pages, read_pages_complete}
use bip110_crawler.Db.Blocks.Writes.{find_block, has_block, write_blocks-keeps}
use bip110_crawler.Db.Snapshot.{Db, has_edge, prune}
use bip110_crawler.Db.Snapshot.Persists.{after, write_snapshot-Keeps}
use bip110_crawler.Db.Snapshot.Prune.{Pruned, prune-Pruned}
use bip110_crawler.Db.Report.{
  ReportData, unknown_own, or_else, limit_rows, shown_edges, read_report, decode_rows, is_fresh,
  shown_nodes,
}
use bip110_crawler.Db.Report.Shown.{IsShown, read_report-Shown}
use bip110_crawler.Serve.Query.{parse_query}
use bip110_crawler.Serve.Query.Decodes.{Encodes, Spells, meant, parse_query-Spells}
use bip110_crawler.Serve.InFlight.{
  admitting, Server, Dispatcher, Step, Reach, admit, max_in_flight, receiving,
}
use bip110_crawler.Serve.InFlight.Limit.{is_receiving, Reach-Limited}

-- A node that was handshaked once, and a later probe of it that failed.
abbrev peer : NodeInfo
peer = record {
  addr = codes "1.2.3.4:8333";
  depth = 1;
  protocol_version = pos 70016;
  user_agent = codes "/Satoshi:29.0.0/";
  services = 9;
  start_height = pos 900000;
  chain_hash = [];
  handshaked = true;
  implementation = codes "Bitcoin Core";
  version = codes "29.0.0";
  bip110 = not_enforcing;
  first_seen = codes "2026-07-01T00:00:00Z";
  last_seen = codes "2026-07-02T00:00:00Z";
  times_seen = 1;
  online = true;
  latency_ms = some 85;
}

abbrev failed_probe : NodeInfo
failed_probe = record peer {
  user_agent = [];
  handshaked = false;
  implementation = codes "Unreachable";
  version = [];
  last_seen = [];
  online = false;
  latency_ms = none;
}

abbrev peer_row : NodeRecord ℕ
peer_row = bind (codes "2026-07-02T00:10:00Z") [] peer

abbrev loop_edge : Edge
loop_edge = record { from = peer.addr; to = peer.addr }

abbrev block_at : ℕ → BlockInfo
block_at h = record {
  height = h;
  hash = [];
  time = pos 0;
  version = pos 4;
  signals = false;
  tx_count = 1;
  size = pos 1000;
  weight = pos 4000;
  miner = [];
}

abbrev row_at : ℕ → BlockRow
row_at h = record { info = block_at h; payload = none; stats = none }

abbrev small_db : Db ℕ
small_db = record {
  nodes = peer_row ∷ [];
  edges = loop_edge ∷ [];
  meta = [];
  history = [];
  blocks = row_at 5 ∷ row_at 4 ∷ row_at 2 ∷ [];
}

abbrev saved : Db ℕ
saved =
    after 1782000000 (codes "2026-07-03T00:00:00Z") (codes "main") (some (codes "{}"))
      (some (codes "null")) (failed_probe ∷ []) [] [] small_db

write_snapshot-Keeps_example :
    ((new : NodeRecord ℕ) × (find_row peer.addr saved.nodes ≡ some new)
      × Keeps peer_row new
      × (((peer_row.handshaked == 1) ≡ false)
          ⊎ ((reported peer.addr (failed_probe ∷ []) ≡ true) ⊎ (new ≡ peer_row))))
    × ((e : Edge) → has_edge e small_db.edges ≡ true → has_edge e saved.edges ≡ true)
unfolding find_row list_eq bind
write_snapshot-Keeps_example =
    write_snapshot-Keeps 1782000000 (codes "2026-07-03T00:00:00Z") (codes "main")
      (some (codes "{}")) (some (codes "null")) (failed_probe ∷ []) [] [] small_db peer.addr
      peer_row refl

prune-Pruned_example :
    (prune 1782000000 0 small_db ≡ err keep_days_zero)
    × ((pruned : Db ℕ) × (prune 1782000000 30 small_db ≡ ok pruned)
        × Pruned (iso_secs_ago 1782000000 (30 * 86400)) small_db pruned)
prune-Pruned_example = prune-Pruned 1782000000 29 small_db (omega arith)

read_pages_complete_example : read_pages 4 none 2 small_db.blocks ≡ small_db.blocks
read_pages_complete_example = read_pages_complete 2 small_db.blocks (omega arith) (omega arith)

write_blocks-keeps_example :
    Descending (write_blocks (block_at 3 ∷ []) small_db.blocks)
    × ((new : BlockRow) × (find_block 4 (write_blocks (block_at 3 ∷ []) small_db.blocks) ≡ some new)
        × (new.payload ≡ none)
        × (new.stats ≡ none)
        × ((has_block 4 (block_at 3 ∷ []) ≡ true) ⊎ (new ≡ row_at 4)))
unfolding find_block
write_blocks-keeps_example =
    write_blocks-keeps 4 (block_at 3 ∷ []) small_db.blocks (row_at 4) (omega arith) refl

-- `q=a+b%2f`
abbrev query : Bytes
query = codes "q=a+b%2f"

query-Spells : Spells query ((codes "q", codes "a b/") ∷ [])
unfolding to_digit_16
query-Spells =
    Spells.one (Encodes.as_is (omega arith) (omega arith) Encodes.end)
      (Encodes.as_is (omega arith) (omega arith) (
        Encodes.blank
          (Encodes.as_is (omega arith) (omega arith) (Encodes.escaped refl refl Encodes.end))))
      (omega arith) (omega arith)

parse_query-Spells_example :
    parse_query (λ s. s) query ≡ meant (λ s. s) ((codes "q", codes "a b/") ∷ []) []
parse_query-Spells_example = parse_query-Spells (λ s. s) query-Spells

-- The first request has been counted.
abbrev counted_one : Server
counted_one = record {
  in_flight = 1;
  running = 0;
  threads = Dispatcher.admitting ∷ receiving ∷ receiving ∷ receiving ∷ [];
}

counted_one-Reach : Reach counted_one
unfolding admit
counted_one-Reach =
    Reach.next Reach.start (Step.receive [] (receiving ∷ receiving ∷ receiving ∷ []))

Reach-Limited_example :
    (counted_one.running ≤ max_in_flight)
    × ((count is_receiving counted_one.threads ≡ 0)
        ⊎ ((admit counted_one.in_flight ≡ admitting) ⊎ (61 ≤ counted_one.running)))
Reach-Limited_example = Reach-Limited counted_one-Reach

abbrev report_at : Option (ReportData ℕ)
report_at = read_report (λ c. c ∷ []) (λ t. none) (λ t. none) (λ t. none) 1782000000 3000 0 small_db

abbrev empty_report : ReportData ℕ
empty_report = record {
  generated_at = [];
  network = [];
  own_node = unknown_own;
  signalling = none;
  chain_split = none;
  aggregates = from_nodes [];
  discovered_total = 0;
  nodes = [];
  edges = [];
  geo = none;
  live = true;
  refresh_seconds = 10;
}

abbrev shown_report : ReportData ℕ
shown_report = or_else empty_report report_at

report_is_shown : report_at ≡ some shown_report
unfolding read_report decode_rows row_to_node is_fresh filter sort_with limit_rows to_i64 bind flag
report_is_shown = refl

read_report-Shown_example :
    ((2 ^ 63 ≤ 3000) ⊎ (length shown_report.nodes ≤ 3000))
    × All (IsShown shown_report.nodes) shown_report.edges
    × ((decode_rows (λ c. c ∷ []) (filter (is_fresh 1782000000 0) small_db.nodes) ≡ none)
        ⊎ ((ns : List (NodeInfo × Option (GeoInfo ℕ))) × (decode_rows
                (λ c. c ∷ [])
                (filter (is_fresh 1782000000 0) small_db.nodes)
              ≡ some ns)
            × (shown_report.aggregates ≡ from_nodes (shown_nodes ns))))
read_report-Shown_example =
    read_report-Shown (λ c. c ∷ []) (λ t. none) (λ t. none) (λ t. none) 1782000000 3000 0 small_db
      shown_report report_is_shown

-- The peer's edge to itself is shown.
report_sizes : length shown_report.edges ≡ 1
unfolding read_report decode_rows row_to_node is_fresh filter sort_with limit_rows to_i64 bind flag
    shown_edges list_eq shown_nodes
report_sizes = refl
