-- ===== src/Examples/Reports.antt =====
-- Time stamps, the node table, the report, the refresh and the credentials at concrete inputs
-- (src/time.rs, src/db.rs, src/main.rs, src/rpc.rs).
mod Cycles
use bip110_crawler.Common.{
  replicate, ℕ, ◌≤◌, ◌<◌, ◌≡◌, ◌≢◌, ◌⊎◌, refl, subst, list_eq, Option, none, true, false, List, [],
  ◌∷◌, ◌++◌, some, All, map, length, take, count, codes, pos, filter, err, ok, arith, Text, leb,
  text_leb, Bool, no_result,
}
use bip110_crawler.Node.{NodeInfo, Edge, not_enforcing}
use bip110_crawler.Time.{iso_from_unix}
use bip110_crawler.Time.Order.{iso_from_unix-order}
use bip110_crawler.Rpc.Blocks.{BlockInfo}
use bip110_crawler.Node.Aggregates.{from_nodes}
use bip110_crawler.Db.Nodes.{NodeRecord, bind, find_row}
use bip110_crawler.Db.Nodes.Keeps.{Keeps}
use bip110_crawler.Db.Report.{unknown_own}
use bip110_crawler.Cycle.Assemble.Closed.{IsNode}
use bip110_crawler.History.{History}
use bip110_crawler.Cycle.Finish.{finish_cycle}
use bip110_crawler.Cycle.Finish.Completes.{Completes, finish_cycle-Completes}
use bip110_crawler.Cycle.Snapshot.{Outside, Captured, snapshot}
use bip110_crawler.Cycle.Snapshot.Reported.{snapshot-Reports}
use bip110_crawler.Db.Blocks.{write_blocks, unstored_heights}
use bip110_crawler.Db.Table.{NodeRow, NodeQuery, matching_rows, read_nodes, sorted_rows}
use bip110_crawler.Db.Table.Order.{Column, Asked, InOrder}
use bip110_crawler.Db.Table.Pages.{table_pages, table_pages_complete}
use bip110_crawler.Db.Report.Shown.{IsShown}
use bip110_crawler.Cycle.Refresh.{Client, Live, refresh_blocks}
use bip110_crawler.Cycle.Refresh.Drains.{refresh_blocks_drains}

-- A second before and at the turn of a year.
iso_from_unix-order_example :
    text_leb (iso_from_unix 1767225600) (iso_from_unix 1767225599) ≡ leb 1767225600 1767225599
iso_from_unix-order_example = iso_from_unix-order 1767225600 1767225599 (omega arith) (omega arith)

abbrev node_on : Text → NodeInfo
node_on addr = record {
  addr = addr;
  depth = 1;
  protocol_version = pos 70016;
  user_agent = codes "/Satoshi:29.0.0/";
  services = 9;
  start_height = pos 900000;
  chain_hash = [];
  handshaked = true;
  implementation = codes "Bitcoin Core";
  version = codes "29.0.0";
  bip110 = not_enforcing;
  first_seen = [];
  last_seen = [];
  times_seen = 1;
  online = true;
  latency_ms = some 85;
}

abbrev stub : NodeInfo
stub = record (node_on (codes "c")) { online = false; handshaked = false }

abbrev table_rows : List (NodeRecord ℕ)
table_rows =
    bind (codes "2026-07-02T00:10:00Z") [] (node_on (codes "a"))
    ∷ bind (codes "2026-07-02T00:10:00Z") [] stub
    ∷ bind (codes "2026-07-02T00:10:00Z") [] (node_on (codes "b"))
    ∷ []

abbrev table_query : NodeQuery
table_query = record {
  q = codes "core";
  implementation = [];
  bip = [];
  sort = codes "latency";
  dir_desc = true;
  limit = 1;
  offset = 0;
}

table_pages_complete_example :
    let found = matching_rows (λ c. []) 1782000000 0 table_query table_rows in
    let total = (read_nodes (λ c. []) 1782000000 0 table_query table_rows).1 in
    let pages = table_pages (λ c. []) 1782000000 0 total 0 table_query table_rows in
    InOrder (Asked true Column.latency) pages
    × (pages ≡ sorted_rows table_query found)
    × ((p : NodeRow → Bool) → count p pages ≡ count p found)
    × (length pages ≡ total)
unfolding list_eq
table_pages_complete_example =
    table_pages_complete (λ c. []) 1782000000 0 table_query table_rows (omega arith)

abbrev three : List NodeInfo
three = stub ∷ node_on (codes "a") ∷ node_on (codes "b") ∷ []

abbrev links : List Edge
links =
    record { from = codes "a"; to = codes "c" } ∷ record { from = codes "a"; to = codes "b" } ∷ []

abbrev block_at : ℕ → BlockInfo
block_at h = record {
  height = h;
  hash = [];
  time = pos 0;
  version = pos 4;
  signals = true;
  tx_count = 1;
  size = pos 1000;
  weight = pos 4000;
  miner = [];
}

-- A node that answers what it is asked, and cannot analyse blocks.
abbrev client : Client
client = record {
  block_count = ok 9;
  block_hash_at = λ height. ok (replicate 32 height);
  signalling = err no_result;
  chain_tips = err no_result;
  recent_blocks = ok (block_at 9 ∷ []);
  blocks_at_heights = λ heights. ok (map block_at heights);
  analyze_block = λ hash. err no_result;
  block_stats = λ height. err no_result;
}

abbrev heights : List ℕ
heights = 3 ∷ 9 ∷ 5 ∷ []

refresh_blocks_drains_example : unstored_heights heights (refresh_blocks client heights []) ≡ []
unfolding bip110_crawler.Common.sort_by unstored_heights filter write_blocks
refresh_blocks_drains_example =
    refresh_blocks_drains client heights (block_at 9 ∷ []) (block_at 5 ∷ block_at 3 ∷ []) [] refl
      (omega arith) refl refl
