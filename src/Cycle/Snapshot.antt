-- ===== src/Cycle/Snapshot.antt =====
-- The snapshot callback of a crawl with a database (src/main.rs: run_cycle): the refresh, the mempool, our
-- own node, the geolocation, the write to the store, and the report. The JSON texts, the
-- geolocation and the clock are given.
pub mod Reported
use bip110_crawler.Common.{
  ℕ, Bool, List, [], ◌∷◌, Option, none, some, if◌then◌else◌, length, Text, codes, filter, Result,
  ok, err,
}
use bip110_crawler.Node.{NodeInfo, Edge}
use bip110_crawler.Node.ChainSplit.{ChainSplit}
use bip110_crawler.P2p.Headers.{hash_hex}
use bip110_crawler.Rpc.Signalling.{SignalStats}
use bip110_crawler.Rpc.Replies.Fees.{MempoolSnapshot}
use bip110_crawler.Db.Nodes.{GeoInfo}
use bip110_crawler.Db.Snapshot.{Db, set_meta, write_snapshot, commit}
use bip110_crawler.Db.Report.{OwnNode, ReportData, or_else}
use bip110_crawler.Cycle.Assemble.{
  splice_own, reachable_only, cap_report, assemble_report, geolocate_map, attach_own_geo,
}
use bip110_crawler.Cycle.Refresh.{Client, ClusterSummary, Live, refresh_tick}

-- What the callback captures.
pub record Captured : Type 0 where
  pub own_info : Option NodeInfo
  pub own_edges : List Edge
  pub report_own : OwnNode
  pub own_ip : Option Text
  pub network : Text
  pub geolocate : Bool
  pub report_max : ℕ
  pub refresh : ℕ
  pub signal_window : ℕ
  pub chain_ref_height : ℕ

-- The JSON texts that are stored, and the geolocation.
pub record Outside (F : Type 0) : Type 0 where
  pub summary_to_json : ClusterSummary → Text
  pub split_to_json : ChainSplit → Text
  pub mempool_to_json : MempoolSnapshot F → Text
  pub own_to_json : OwnNode → Option Text
  pub signalling_to_json : Option SignalStats → Option Text
  pub ip_of : Text → Option Text
  pub geolocate_cached : List Text → List (Text × GeoInfo F)

-- Our own hash at the reference height, displayed; empty if the node does not tell it.
unfoldable pub our_hash_at : Client → ℕ → Text
our_hash_at client height = elim (client.block_hash_at height) [
  | ok hash ↦ hash_hex hash
  | err e ↦ []
]

module _ {F : Type 0} (out : Outside F) where
  -- Every tick, and not only on a new block.
  unfoldable pub store_mempool : Result (MempoolSnapshot F) → Db F → Db F
  store_mempool (err e) db = db
  store_mempool (ok snap) db = set_meta (codes "mempool") (out.mempool_to_json snap) db

  -- The nodes that are reachable, and our own.
  unfoldable pub locate_nodes : Captured → List NodeInfo → Option (List (Text × GeoInfo F))
  locate_nodes c nodes =
      if c.geolocate
      then some (
          attach_own_geo out.ip_of out.geolocate_cached c.report_own.addr c.own_ip (
            geolocate_map out.ip_of out.geolocate_cached
              (filter (λ (n : NodeInfo). n.online) nodes)))
      else none

  -- `write_db`: a failed transaction is logged.
  unfoldable pub write_db :
      ℕ
      → Text
      → Captured
      → Option SignalStats
      → List NodeInfo × List Edge
      → Option (List (Text × GeoInfo F))
      → Db F
      → Db F
  write_db now generated_at c signalling (nodes, edges) geo db = commit db (
      write_snapshot now generated_at c.network (out.own_to_json c.report_own)
        (out.signalling_to_json signalling) nodes edges (or_else [] geo) db)

  -- The report: reachable nodes only, capped.
  unfoldable pub site_report :
      Text
      → Captured
      → Option SignalStats
      → Option (List (Text × GeoInfo F))
      → List NodeInfo × List Edge
      → ReportData F
  site_report generated_at c signalling geo graph =
      let reachable = reachable_only graph in
      assemble_report (cap_report c.report_max reachable) none [] c.report_own signalling geo
        c.network generated_at Bool.true c.refresh (length reachable.0)

  -- The part of the callback that asks our own node.
  unfoldable pub ticked :
      Captured → Option (Client × Result (MempoolSnapshot F)) → List NodeInfo → Live F → Live F
  unfolding store_mempool our_hash_at
  ticked c none nodes live = live
  ticked c (some (client, mempool)) nodes live =
      let refreshed =
        refresh_tick out.summary_to_json out.split_to_json client c.chain_ref_height
          (our_hash_at client c.chain_ref_height) c.signal_window nodes live in
      record refreshed { db = store_mempool mempool refreshed.db }

  unfoldable pub snapshot :
      ℕ
      → Text
      → Captured
      → Option (Client × Result (MempoolSnapshot F))
      → List NodeInfo × List Edge
      → Live F
      → Live F × ReportData F
  unfolding ticked locate_nodes write_db site_report
  snapshot now generated_at c rpc (nodes, edges) live =
      let live1 = ticked c rpc nodes live in
      let graph = splice_own c.own_info c.own_edges (nodes, edges) in
      let geo = locate_nodes c graph.0 in
      (
        record live1 { db = write_db now generated_at c live1.cached graph geo live1.db },
        site_report generated_at c live1.cached geo graph,
      )
