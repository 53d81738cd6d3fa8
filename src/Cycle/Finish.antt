-- ===== src/Cycle/Finish.antt =====
-- The end of a cycle behind the crawl (src/main.rs: run_cycle): our own node, the history, the geolocation, the
-- write to the store, and the report. What the history file holds is given, and a failed load is
-- logged.
pub mod Completes
use bip110_crawler.Common.{ℕ, Bool, List, Option, none, some, if◌then◌else◌, Text, Result, ok, err}
use bip110_crawler.Node.{NodeInfo, Edge}
use bip110_crawler.Rpc.Signalling.{SignalStats}
use bip110_crawler.History.{History, merge, into_nodes}
use bip110_crawler.Db.Snapshot.{Db}
use bip110_crawler.Db.Report.{ReportData}
use bip110_crawler.Cycle.Assemble.{splice_own}
use bip110_crawler.Cycle.Snapshot.{Captured, Outside, locate_nodes, write_db, site_report}

-- The known nodes, and the history to save; without a history file the nodes of the crawl.
unfoldable pub accumulate :
    Option (Result History) → Text → List NodeInfo → List NodeInfo × Option History
accumulate none now nodes = (nodes, none)
accumulate (some (err e)) now nodes = (nodes, none)
accumulate (some (ok hist)) now nodes =
    let merged = merge hist nodes now in (into_nodes merged, some merged)

module _ {F : Type 0} (out : Outside F) where
  unfoldable pub finish_cycle :
      ℕ
      → Text
      → Captured
      → Bool
      → Option (Result History)
      → Option SignalStats
      → List NodeInfo × List Edge
      → Db F
      → Db F × Option History × ReportData F
  unfolding accumulate
  finish_cycle secs now c live history signalling result db =
      let (crawled, edges) = splice_own c.own_info c.own_edges result in
      let (nodes, saved) = accumulate history now crawled in
      let geo = locate_nodes out c nodes in
      let report = site_report out now c signalling geo (nodes, edges) in
      (
        write_db out secs now c signalling (nodes, edges) geo db,
        saved,
        record report { live = live; refresh_seconds = if live then c.refresh else 0 },
      )
