-- ===== src/Cycle/Refresh.antt =====
-- The snapshot callback's work on a new block (src/main.rs: run_cycle): the signalling scan, the peer
-- clusters, the chain-split check, the blocks of the explorer, and the mempool. What the node
-- answers is a record of results; a failed answer is logged and skipped. JSON texts are serde_json's, and
-- opening the database does not fail.
pub mod Drains
use bip110_crawler.Common.{
  ℕ, suc, ◌+◌, Bool, true, false, not, ◌&&◌, ◌||◌, List, [], ◌∷◌, ◌++◌, Option, none, some, ℤ,
  if◌then◌else◌, leb, ltb, ◌==◌, length, take, Text, codes, list_eq, filter, store, count_up,
  sort_with, sort_descending, Result, ok, err, text_leb, Bytes,
}
use bip110_crawler.Crawler.Tasks.{is_empty}
use bip110_crawler.Node.{NodeInfo}
use bip110_crawler.Node.ChainSplit.{ChainTip, ChainSplit, assess_chain_split}
use bip110_crawler.Rpc.Blocks.{BlockInfo, BlockStats}
use bip110_crawler.Rpc.Payload.{BlockPayload}
use bip110_crawler.Rpc.Signalling.{SignalStats}
use bip110_crawler.Db.Blocks.{
  BlockRow, write_blocks, write_block_analysis, unstored_heights, blocks_needing_analysis,
}
use bip110_crawler.Db.Snapshot.{Db, set_meta}

abbrev pub store_signalling_per_refresh : ℕ
store_signalling_per_refresh = 64

abbrev pub analyze_per_refresh : ℕ
analyze_per_refresh = 4

-- The node's answers.
pub record Client : Type 0 where
  pub block_count : Result ℕ
  pub block_hash_at : ℕ → Result Bytes
  pub signalling : Result (SignalStats × List ℕ)
  pub chain_tips : Result (List ChainTip)
  pub recent_blocks : Result (List BlockInfo)
  pub blocks_at_heights : List ℕ → Result (List BlockInfo)
  pub analyze_block : Text → Result BlockPayload
  pub block_stats : ℕ → Result BlockStats

unfoldable pub ok_to_option {ℓ} : {A : Type ℓ} → Result A → Option A
ok_to_option (ok a) = some a
ok_to_option (err e) = none

-- One chain of the peers: its hash, how many peers are on it, and their implementations.
pub record ChainCluster : Type 0 where
  pub hash : Text
  pub nodes : ℕ
  pub by_implementation : List (Text × ℕ)

unfoldable pub add_peer : NodeInfo → List ChainCluster → List ChainCluster
add_peer n [] =
    record { hash = n.chain_hash; nodes = 1; by_implementation = count_up n.implementation [] } ∷ []
add_peer n (c ∷ clusters) =
    if list_eq c.hash n.chain_hash
    then record c {
      nodes = c.nodes + 1;
      by_implementation = count_up n.implementation c.by_implementation;
    }
      ∷ clusters
    else if text_leb c.hash n.chain_hash
    then c ∷ add_peer n clusters
    else record { hash = n.chain_hash; nodes = 1; by_implementation = count_up n.implementation [] }
      ∷ c
      ∷ clusters

unfoldable pub chain_clusters : List NodeInfo → List ChainCluster
unfolding add_peer
chain_clusters [] = []
chain_clusters (n ∷ nodes) =
    if n.handshaked && not (is_empty n.chain_hash)
    then add_peer n (chain_clusters nodes)
    else chain_clusters nodes

unfoldable pub responded_of : List ChainCluster → ℕ
responded_of [] = 0
responded_of (c ∷ clusters) = c.nodes + responded_of clusters

-- `Reverse` of the number of nodes.
unfoldable pub larger_first : ChainCluster → ChainCluster → Bool
larger_first a b = leb b.nodes a.nodes

pub record ClusterSummary : Type 0 where
  pub ref_height : ℕ
  pub our_hash : Text
  pub responded : ℕ
  pub clusters : List (ChainCluster × Bool)

-- Each cluster with the mark that it is our own chain.
unfoldable pub mark_ours : Text → List ChainCluster → List (ChainCluster × Bool)
mark_ours ours [] = []
mark_ours ours (c ∷ clusters) =
    (c, not (is_empty ours) && list_eq c.hash ours) ∷ mark_ours ours clusters

unfoldable pub cluster_summary : ℕ → Text → List NodeInfo → ClusterSummary
unfolding chain_clusters responded_of larger_first mark_ours
cluster_summary ref_height ours nodes =
    let clusters = chain_clusters nodes in
    record {
      ref_height = ref_height;
      our_hash = ours;
      responded = responded_of clusters;
      clusters = mark_ours ours (sort_with larger_first clusters);
    }

-- The signalling blocks that are not stored yet, the newest first, and at most 64 of them.
unfoldable pub store_signalling : Client → List ℕ → List BlockRow → List BlockRow
store_signalling client heights rows =
    let missing =
      take store_signalling_per_refresh (sort_descending (unstored_heights heights rows)) in
    if is_empty missing then rows else elim (client.blocks_at_heights missing) [
      | ok blocks ↦ write_blocks blocks rows
      | err e ↦ rows
    ]

-- A failed analysis ends the batch; failed statistics do not.
unfoldable pub analyse_pending : Client → List (ℕ × Text) → List BlockRow → List BlockRow
analyse_pending client [] rows = rows
analyse_pending client ((height, hash) ∷ pending) rows = elim (client.analyze_block hash) [
  | ok p ↦
      analyse_pending client pending
        (write_block_analysis height p (ok_to_option (client.block_stats height)) rows)
  | err e ↦ rows
]

unfoldable pub refresh_blocks : Client → List ℕ → List BlockRow → List BlockRow
unfolding store_signalling analyse_pending ok_to_option
refresh_blocks client heights rows = elim client.recent_blocks [
  | ok blocks ↦
      let stored = store_signalling client heights (write_blocks blocks rows) in
      analyse_pending client (blocks_needing_analysis analyze_per_refresh stored) stored
  | err e ↦ rows
]

-- The shared state of the callback.
pub record Live (F : Type 0) : Type 0 where
  pub db : Db F
  pub cached : Option SignalStats
  pub refreshed_once : Bool

abbrev pub same_tip : ℕ → Option SignalStats → Bool
same_tip tip none = false
same_tip tip (some s) = s.tip_height == tip

unfoldable pub scanned :
    Result (SignalStats × List ℕ) → Option SignalStats → Option SignalStats × List ℕ
scanned (ok (s, heights)) cached = (some s, heights)
scanned (err e) cached = (cached, [])

module _ {F : Type 0} (summary_to_json : ClusterSummary → Text)
    (split_to_json : ChainSplit → Text) where
  -- The clusters are stored if peers were asked at a height.
  unfoldable pub store_clusters : ℕ → Text → List NodeInfo → Db F → Db F
  store_clusters ref_height ours nodes db =
      if ltb 0 ref_height
      then set_meta (codes "chain_clusters")
          (summary_to_json (cluster_summary ref_height ours nodes)) db
      else db

  unfoldable pub store_split : Result (List ChainTip) → List NodeInfo → Db F → Db F
  store_split (err e) nodes db = db
  store_split (ok tips) nodes db =
      set_meta (codes "chain_split") (split_to_json (assess_chain_split tips nodes)) db

  -- One tick: the cheap height first, and the rest if it is new or nothing was refreshed yet.
  unfoldable pub refresh_tick : Client → ℕ → Text → ℕ → List NodeInfo → Live F → Live F
  unfolding scanned store_clusters store_split refresh_blocks
  refresh_tick client ref_height ours signal_window nodes live =
      if signal_window == 0 then live else elim client.block_count [
        | err e ↦ live
        | ok tip ↦
            if same_tip tip live.cached && live.refreshed_once
            then live
            else (let (cached, heights) = scanned client.signalling live.cached in
                let db1 = store_clusters ref_height ours nodes live.db in
                let db2 = store_split client.chain_tips nodes db1 in
                record {
                  db = record db2 { blocks = refresh_blocks client heights db2.blocks };
                  cached = cached;
                  refreshed_once = true;
                })
      ]
