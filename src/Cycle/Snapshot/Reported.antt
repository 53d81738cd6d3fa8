-- ===== src/Cycle/Snapshot/Reported.antt =====
-- What a snapshot shows, and what it leaves in the store (src/main.rs).
use bip110_crawler.Common.{
  ℕ, zero, suc, ◌≤◌, ◌≡◌, ◌≢◌, refl, sym, ap, subst, ◌∙◌, inl, inr, ◌⊎◌, ◌&&◌, true, not, List, [],
  Option, none, some, length, All, Bool-cases, Result-cases, list_eq, ◌==◌, Text, Result, ok, err,
  arith,
}
use bip110_crawler.Node.{NodeInfo, Edge}
use bip110_crawler.Node.Aggregates.{from_nodes}
use bip110_crawler.Node.ChainSplit.{ChainTip}
use bip110_crawler.Rpc.Signalling.{SignalStats}
use bip110_crawler.Rpc.Replies.Fees.{MempoolSnapshot}
use bip110_crawler.Db.Nodes.{GeoInfo, NodeRecord, find_row}
use bip110_crawler.Db.Nodes.Keeps.{Keeps}
use bip110_crawler.Db.Snapshot.{Db, set_meta}
use bip110_crawler.Db.Snapshot.Persists.{write_snapshot-Keeps}
use bip110_crawler.Cycle.Refresh.{Client, Live, store_clusters, store_split, same_tip, refresh_tick}
use bip110_crawler.Cycle.Snapshot.{
  Captured, Outside, store_mempool, site_report, locate_nodes, write_db, our_hash_at, ticked,
  snapshot,
}
use bip110_crawler.Db.Report.{or_else}
use bip110_crawler.Db.Report.Shown.{IsShown}
use bip110_crawler.Cycle.Assemble.{
  placeholder, splice_own, assemble_report, reachable_only, cap_report,
}
use bip110_crawler.Cycle.Assemble.Closed.{
  IsNode, IsReported, filter-same, All-weaken, All-online, cap_report-Closed, splice_own-IsNode,
  reachable_only-Closed,
}

-- A bound of 0 is none.
bounded : {A : Type 0} (n : ℕ) → (n ≢ 0 → A) → (n ≡ 0) ⊎ A
bounded zero f = inl refl
bounded (suc n) f = inr (f (λ e. cc e))

module _ {F : Type 0} (out : Outside F) where
  reported_nodes :
      (c : Captured) (generated_at : Text) (signalling : Option SignalStats)
      (geo : Option (List (Text × GeoInfo F))) (graph : List NodeInfo × List Edge)
      → All IsNode graph.0
      → let report = site_report out generated_at c signalling geo graph in
        let capped = cap_report c.report_max (reachable_only graph) in
        (report.nodes ≡ capped.0)
        × (report.edges ≡ capped.1)
        × (report.aggregates ≡ from_nodes capped.0)
  unfolding site_report assemble_report splice_own
  reported_nodes c generated_at signalling geo graph a =
      let reachable = reachable_only graph in
      let closed =
        (cap_report-Closed IsReported c.report_max reachable.0 reachable.1
          (reachable_only-Closed graph a)).0 in
      let capped = cap_report c.report_max reachable in
      let same =
        filter-same (λ n. not (list_eq n.addr placeholder)) capped.0
          (All-weaken capped.0 closed.0) in
      (same, refl, ap from_nodes same)

  store_mempool-nodes :
      (mempool : Result (MempoolSnapshot F)) (db : Db F)
      → ((store_mempool out mempool db).nodes ≡ db.nodes)
        × ((store_mempool out mempool db).edges ≡ db.edges)
  unfolding store_mempool set_meta
  store_mempool-nodes (ok snap) db = (refl, refl)
  store_mempool-nodes (err e) db = (refl, refl)

  store_clusters-nodes :
      (height : ℕ) (ours : Text) (nodes : List NodeInfo) (db : Db F)
      → (store_clusters out.summary_to_json out.split_to_json height ours nodes db).nodes ≡ db.nodes
  unfolding store_clusters set_meta
  store_clusters-nodes height ours nodes db = ground arith

  store_split-nodes :
      (tips : Result (List ChainTip)) (nodes : List NodeInfo) (db : Db F)
      → (store_split out.summary_to_json out.split_to_json tips nodes db).nodes ≡ db.nodes
  unfolding store_split set_meta
  store_split-nodes (ok tips) nodes db = refl
  store_split-nodes (err e) nodes db = refl

  refresh_tick-nodes :
      (client : Client) (height : ℕ) (ours : Text) (window : ℕ) (nodes : List NodeInfo)
      (live : Live F)
      → (refresh_tick out.summary_to_json out.split_to_json client height ours window nodes
          live).db.nodes
        ≡ live.db.nodes
  unfolding refresh_tick
  refresh_tick-nodes client height ours window nodes live =
      let clustered =
        store_clusters out.summary_to_json out.split_to_json height ours nodes live.db in
      let stored =
        store_split-nodes client.chain_tips nodes clustered
        ∙ store_clusters-nodes height ours nodes live.db in
      elim (Bool-cases (window == 0)) [
        | inl off ↦ rw (off, refresh_tick) refl
        | inr on ↦ elim (Result-cases client.block_count) [
          | inl (e, q) ↦ rw (on, q, refresh_tick) refl
          | inr (tip, q) ↦ elim (Bool-cases (same_tip tip live.cached && live.refreshed_once)) [
            | inl seen ↦ rw (on, q, seen, refresh_tick) refl
            | inr fresh ↦ rw (on, q, fresh, refresh_tick) stored
          ]
        ]
      ]

  ticked-nodes :
      (c : Captured) (rpc : Option (Client × Result (MempoolSnapshot F))) (nodes : List NodeInfo)
      (live : Live F)
      → (ticked out c rpc nodes live).db.nodes ≡ live.db.nodes
  unfolding ticked
  ticked-nodes c none nodes live = refl
  ticked-nodes c (some (client, mempool)) nodes live =
      (store_mempool-nodes mempool _).0
      ∙ refresh_tick-nodes client c.chain_ref_height (our_hash_at client c.chain_ref_height)
          c.signal_window nodes live

  pub site_report-Reports :
      (c : Captured) (generated_at : Text) (signalling : Option SignalStats)
      (geo : Option (List (Text × GeoInfo F))) (graph : List NodeInfo × List Edge)
      → All IsNode graph.0
      → let report = site_report out generated_at c signalling geo graph in
        ((c.report_max ≡ 0) ⊎ (length report.nodes ≤ c.report_max))
        × All (λ n. n.online ≡ true) report.nodes
        × All (IsShown report.nodes) report.edges
        × (report.aggregates ≡ from_nodes report.nodes)
  site_report-Reports c generated_at signalling geo graph a =
      let report = site_report out generated_at c signalling geo graph in
      let reachable = reachable_only graph in
      let (closed, few) =
        cap_report-Closed IsReported c.report_max reachable.0 reachable.1
          (reachable_only-Closed graph a) in
      let (nodes, edges, counts) = reported_nodes c generated_at signalling geo graph a in
      (
        bounded c.report_max (λ h. subst (λ ns. length ns ≤ c.report_max) (sym nodes) (few h)),
        subst (All (λ n. n.online ≡ true)) (sym nodes) (All-online _ closed.0),
        subst (λ ns. All (IsShown ns) report.edges) (sym nodes)
            (subst (All (IsShown (cap_report c.report_max reachable).0)) (sym edges) closed.1),
        counts ∙ ap from_nodes (sym nodes),
      )

  module _ (now : ℕ) (generated_at : Text) (c : Captured)
      (rpc : Option (Client × Result (MempoolSnapshot F))) (nodes : List NodeInfo)
      (edges : List Edge) (live : Live F) where
    -- One snapshot, composed of the refresh, the write to the store and the report: no more nodes are
    -- shown than the bound, if there is one; every shown node is reachable; every shown edge has both
    -- its ends shown; the aggregates are those of the shown nodes; and every node that the store had
    -- keeps its row, in which a first sighting, a handshake, coordinates and a latency that are known stay
    -- known. It is assumed that the record of our own node does not have the address of the placeholder.
    pub snapshot-Reports :
        ((own : NodeInfo) → c.own_info ≡ some own → IsNode own)
        → (let (live', report) = snapshot out now generated_at c rpc (nodes, edges) live in
            ((c.report_max ≡ 0) ⊎ (length report.nodes ≤ c.report_max))
            × All (λ n. n.online ≡ true) report.nodes
            × All (IsShown report.nodes) report.edges
            × (report.aggregates ≡ from_nodes report.nodes)
            × ((addr : Text) (old : NodeRecord F)
                → find_row addr live.db.nodes ≡ some old
                → (new : NodeRecord F) × (find_row addr live'.db.nodes ≡ some new) × Keeps old new))
    unfolding snapshot write_db
    snapshot-Reports own_ok =
        let live1 = ticked out c rpc nodes live in
        let graph = splice_own c.own_info c.own_edges (nodes, edges) in
        let geo = locate_nodes out c graph.0 in
        let (few, online, shown, counts) =
          site_report-Reports c generated_at live1.cached geo graph
            (splice_own-IsNode c.own_info c.own_edges (nodes, edges) own_ok) in
        (
          few,
          online,
          shown,
          counts,
          λ addr old found.
              let (new, there, keeps, same) =
                (write_snapshot-Keeps now generated_at c.network (out.own_to_json c.report_own)
                  (out.signalling_to_json live1.cached) graph.0 graph.1 (or_else [] geo) live1.db
                  addr old (ap (find_row addr) (ticked-nodes c rpc nodes live) ∙ found)).0 in
              (new, there, keeps),
        )
