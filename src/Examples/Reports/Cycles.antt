-- ===== src/Examples/Reports/Cycles.antt =====
-- A snapshot and the end of a cycle, at a store and a history that know one node (src/main.rs: run_cycle).
use bip110_crawler.Common.{
  ℕ, ◌≤◌, ◌≡◌, ◌⊎◌, refl, subst, list_eq, Option, none, true, false, [], ◌∷◌, some, All, length,
  codes, err, ok, Text, no_result,
}
use bip110_crawler.Node.{NodeInfo}
use bip110_crawler.Node.Aggregates.{from_nodes}
use bip110_crawler.Db.Nodes.{NodeRecord, bind, find_row}
use bip110_crawler.Db.Nodes.Keeps.{Keeps}
use bip110_crawler.Db.Report.{unknown_own}
use bip110_crawler.Cycle.Assemble.Closed.{IsNode}
use bip110_crawler.History.{History}
use bip110_crawler.Cycle.Finish.{finish_cycle}
use bip110_crawler.Cycle.Finish.Completes.{Completes, finish_cycle-Completes}
use bip110_crawler.Cycle.Snapshot.{Outside, Captured, snapshot}
use bip110_crawler.Cycle.Snapshot.Reported.{snapshot-Reports}
use bip110_crawler.Db.Report.Shown.{IsShown}
use bip110_crawler.Cycle.Refresh.{Live}
use bip110_crawler.Examples.Reports.{node_on, three, links, client}

abbrev outside : Outside ℕ
outside = record {
  summary_to_json = λ s. codes "{}";
  split_to_json = λ s. codes "{}";
  mempool_to_json = λ s. codes "{}";
  own_to_json = λ o. some (codes "{}");
  signalling_to_json = λ s. some (codes "null");
  ip_of = λ t. none;
  geolocate_cached = λ ips. [];
}

abbrev captured : Captured
captured = record {
  own_info = some (node_on (codes "self"));
  own_edges = [];
  report_own = unknown_own;
  own_ip = none;
  network = codes "main";
  geolocate = true;
  report_max = 2;
  refresh = 15;
  signal_window = 2016;
  chain_ref_height = 0;
}

-- The store knows the node that the crawl now failed to reach.
abbrev before : Live ℕ
before = record {
  db = record {
    nodes = bind (codes "2026-07-02T00:10:00Z") [] (node_on (codes "c")) ∷ [];
    edges = [];
    meta = [];
    history = [];
    blocks = [];
  };
  cached = none;
  refreshed_once = false;
}

self_IsNode : (own : NodeInfo) → some (node_on (codes "self")) ≡ some own → IsNode own
unfolding list_eq
self_IsNode own e =
    subst (λ (o : Option NodeInfo). elim o [ none ↦ Unit | some n ↦ IsNode n ]) e refl

snapshot-Reports_example :
    let (after, report) =
      snapshot outside 1782000000
        (codes "2026-07-03T00:00:00Z")
        captured
        (some (client, err no_result))
        (three, links)
        before in
    ((captured.report_max ≡ 0) ⊎ (length report.nodes ≤ captured.report_max))
    × All (λ n. n.online ≡ true) report.nodes
    × All (IsShown report.nodes) report.edges
    × (report.aggregates ≡ from_nodes report.nodes)
    × ((addr : Text) (old : NodeRecord ℕ)
        → find_row addr before.db.nodes ≡ some old
        → (new : NodeRecord ℕ) × (find_row addr after.db.nodes ≡ some new) × Keeps old new)
snapshot-Reports_example =
    snapshot-Reports outside 1782000000 (codes "2026-07-03T00:00:00Z") captured
      (some (client, err no_result)) three links before self_IsNode

-- The history knows the node that this crawl reached again.
abbrev old_history : History
old_history =
    (codes "a", record (node_on (codes "a")) { first_seen = codes "2026-07-01T00:00:00Z" }) ∷ []

finish_cycle-Completes_example : Completes captured (some (ok old_history)) before.db (
    finish_cycle outside 1782000000
      (codes "2026-07-03T00:00:00Z")
      captured
      true
      (some (ok old_history))
      none
      (three, links)
      before.db)
unfolding list_eq
finish_cycle-Completes_example =
    finish_cycle-Completes outside 1782000000 (codes "2026-07-03T00:00:00Z") captured true
      (some (ok old_history)) none three links before.db self_IsNode (refl, tt)
