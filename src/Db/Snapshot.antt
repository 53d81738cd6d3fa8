-- ===== src/Db/Snapshot.antt =====
-- One transaction of the crawler (src/db.rs: write_snapshot, record_history, meta_get), and the
-- maintenance run prune_and_vacuum. `now` is the clock; JSON texts are made by serde_json, and a
-- text that cannot be made is `none`.
pub mod Prune
pub mod Census
pub mod Persists
use bip110_crawler.Common.{
  ℕ, ◌+◌, ◌*◌, ◌%◌, ◌^◌, Bool, true, false, not, ◌&&◌, ◌||◌, List, [], ◌∷◌, Option, none, some,
  if◌then◌else◌, ltb, leb, ◌==◌, length, take, count, Text, codes, list_eq, lookup, store, text_leb,
  filter, sort_with, Result, ok, err, ◌>>=◌, ◌++◌, json_failed, keep_days_zero,
}
use bip110_crawler.Node.{NodeInfo, Edge}
use bip110_crawler.Time.{iso_secs_ago, digits}
use bip110_crawler.Crawler.Tasks.{is_empty}
use bip110_crawler.Db.Like.{like}
use bip110_crawler.Db.Nodes.{GeoInfo, NodeRecord, write_nodes}
use bip110_crawler.Db.Blocks.{BlockRow}

-- A row of the table of hourly points.
pub record HistoryPoint : Type 0 where
  pub total : ℕ
  pub onion : ℕ
  pub distinct_versions : ℕ
  pub versions : List (Text × ℕ)

pub record Db (F : Type 0) : Type 0 where
  pub nodes : List (NodeRecord F)
  pub edges : List Edge
  pub meta : List (Text × Text)
  pub history : List (Text × HistoryPoint)
  pub blocks : List BlockRow

-- HISTORY_WINDOW_SECS, HISTORY_TOP_VERSIONS
abbrev pub history_window_secs : ℕ
history_window_secs = 336 * 3600

abbrev pub history_top_versions : ℕ
history_top_versions = 12

unfoldable pub same_edge : Edge → Edge → Bool
same_edge e f = list_eq e.from f.from && list_eq e.to f.to

unfoldable pub has_edge : Edge → List Edge → Bool
unfolding same_edge
has_edge e [] = false
has_edge e (f ∷ edges) = same_edge f e || has_edge e edges

-- INSERT OR IGNORE
unfoldable pub write_edges : List Edge → List Edge → List Edge
unfolding has_edge
write_edges [] rows = rows
write_edges (e ∷ edges) rows = write_edges edges (if has_edge e rows then rows else rows ++ e ∷ [])

-- One row of GROUP BY implementation, version.
pub record Group : Type 0 where
  pub implementation : Text
  pub version : Text
  pub count : ℕ

unfoldable pub group_before : Text → Text → Group → Bool
group_before im ver g =
    not (text_leb g.implementation im)
    || list_eq g.implementation im && not (text_leb g.version ver)

-- SQLite gives the groups in the order of their columns.
unfoldable pub add_to_group : Text → Text → List Group → List Group
unfolding group_before
add_to_group im ver [] = record { implementation = im; version = ver; count = 1 } ∷ []
add_to_group im ver (g ∷ groups) =
    if list_eq g.implementation im && list_eq g.version ver
    then record g { count = g.count + 1 } ∷ groups
    else if group_before im ver g
    then record { implementation = im; version = ver; count = 1 } ∷ g ∷ groups
    else g ∷ add_to_group im ver groups

-- online=1 AND last_seen >= cutoff
unfoldable pub is_recent : {F : Type 0} → Text → NodeRecord F → Bool
is_recent cutoff r = (r.online == 1) && text_leb cutoff r.last_seen

unfoldable pub version_key : Text → Text → Text
version_key im ver = if is_empty ver then im else im ++ (codes " " ++ ver)

-- ORDER BY the count, descending.
unfoldable pub by_count : Group → Group → Bool
by_count a b = leb b.count a.count

unfoldable pub collect_versions : List Group → List (Text × ℕ) → List (Text × ℕ)
unfolding version_key
collect_versions [] m = m
collect_versions (g ∷ groups) m =
    collect_versions groups (store (version_key g.implementation g.version) g.count m)

unfoldable pub sum_counts : List Group → ℕ
sum_counts [] = 0
sum_counts (g ∷ groups) = g.count + sum_counts groups

unfoldable pub as_json : Option Text → Result Text
as_json none = err json_failed
as_json (some t) = ok t

module _ {F : Type 0} where
  unfoldable pub group_by : List (NodeRecord F) → List Group
  unfolding add_to_group
  group_by [] = []
  group_by (r ∷ rows) = add_to_group r.implementation r.version (group_by rows)

  unfoldable pub is_onion_row : NodeRecord F → Bool
  is_onion_row r = like (codes "%.onion%") r.addr

  unfoldable pub history_point : Text → List (NodeRecord F) → HistoryPoint
  unfolding group_by by_count collect_versions sum_counts is_recent is_onion_row
  history_point cutoff rows =
      let counts = group_by (filter (is_recent cutoff) rows) in
      record {
        total = sum_counts counts;
        onion = count (λ (r : NodeRecord F). is_recent cutoff r && is_onion_row r) rows;
        distinct_versions = length counts;
        versions = collect_versions (take history_top_versions (sort_with by_count counts)) [];
      }

  -- The first 13 characters of the stamp name the hour.
  unfoldable pub record_history : ℕ → Text → Db F → Db F
  unfolding history_point
  record_history now generated_at db = record db {
    history =
        store (take 13 generated_at) (history_point (iso_secs_ago now history_window_secs) db.nodes)
          db.history;
  }

  unfoldable pub set_meta : Text → Text → Db F → Db F
  set_meta key value db = record db { meta = store key value db.meta }

  unfoldable pub meta_get : Text → Db F → Option Text
  meta_get key db = lookup key db.meta

  -- What is committed: a failure on the way returns before the commit, and the transaction is
  -- rolled back.
  unfoldable pub commit : Db F → Result (Db F) → Db F
  commit before (ok db) = db
  commit before (err e) = before

  unfoldable pub write_rows :
      Text → List NodeInfo → List Edge → List (Text × GeoInfo F) → Db F → Db F
  unfolding write_edges
  write_rows generated_at nodes edges geo db = record db {
    nodes = write_nodes generated_at geo nodes db.nodes;
    edges = write_edges edges db.edges;
  }

  unfoldable pub write_snapshot :
      ℕ
      → Text
      → Text
      → Option Text
      → Option Text
      → List NodeInfo
      → List Edge
      → List (Text × GeoInfo F)
      → Db F
      → Result (Db F)
  unfolding write_rows set_meta as_json record_history
  write_snapshot now generated_at network own_node signalling nodes edges geo db =
      let d1 = write_rows generated_at nodes edges geo db in
      let d2 = set_meta (codes "generated_at") generated_at d1 in
      let d3 = set_meta (codes "network") network d2 in
      as_json own_node >>= λ own.
      (let d4 = set_meta (codes "own_node") own d3 in
        as_json signalling >>= λ sig.
        (let d5 = set_meta (codes "signalling") sig d4 in
          let d6 = set_meta (codes "discovered_total") (digits 20 (length nodes)) d5 in
          ok (record_history now generated_at d6)))

  -- DELETE FROM nodes WHERE depth <> 0 AND (last_seen = '' OR last_seen < ?1)
  unfoldable pub is_dead : Text → NodeRecord F → Bool
  is_dead cutoff r =
      not (r.depth == 0) && (is_empty r.last_seen || not (text_leb cutoff r.last_seen))

  unfoldable pub has_node : Text → List (NodeRecord F) → Bool
  has_node addr [] = false
  has_node addr (r ∷ rows) = list_eq r.addr addr || has_node addr rows

  unfoldable pub is_orphan : List (NodeRecord F) → Edge → Bool
  unfolding has_node
  is_orphan rows e = not (has_node e.from rows) || not (has_node e.to rows)

  -- The transaction of the run; VACUUM and ANALYZE change no row.
  -- The product is of two u64: it wraps in a release build, and panics with overflow checks.
  unfoldable pub prune : ℕ → ℕ → Db F → Result (Db F)
  unfolding is_dead is_orphan
  prune now keep_days db =
      if keep_days == 0
      then err keep_days_zero
      else (let cutoff = iso_secs_ago now (keep_days * 86400 % 2 ^ 64) in
          let kept = filter (λ (r : NodeRecord F). not (is_dead cutoff r)) db.nodes in
          ok (record db {
            nodes = kept;
            edges = filter (λ (e : Edge). not (is_orphan kept e)) db.edges;
          }))
