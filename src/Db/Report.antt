-- ===== src/Db/Report.antt =====
-- The report that the API serves (src/db.rs: fresh_clause, read_report, and the stored JSON values).
-- Decoding the stored JSON is serde_json's, and given. Rows that ORDER BY leaves level stay in the
-- order of the table.
pub mod Shown
use bip110_crawler.Common.{
  ℕ, ◌+◌, ◌%◌, ◌^◌, Bool, true, false, not, ◌&&◌, ◌||◌, List, [], ◌∷◌, ◌++◌, Option, none, some, ℤ,
  pos, negsuc, if◌then◌else◌, leb, ltb, ◌==◌, length, take, Text, codes, list_eq, contains, filter,
  sort_with, count_up, text_leb, store,
}
use bip110_crawler.Node.{NodeInfo, Edge}
use bip110_crawler.Node.UserAgent.{assess_bip110}
use bip110_crawler.Node.ChainSplit.{ChainSplit}
use bip110_crawler.Node.Aggregates.{
  Aggregates, no_counts, stance_label, version_label, measured, with_latencies,
}
use bip110_crawler.Rpc.Signalling.{SignalStats}
use bip110_crawler.Time.{iso_secs_ago}
use bip110_crawler.Db.Nodes.{GeoInfo, NodeRecord, to_i64, row_to_node, map_some}
use bip110_crawler.Db.Snapshot.{Db, meta_get}

pub record OwnNode : Type 0 where
  pub addr : Text
  pub version : ℤ
  pub subversion : Text
  pub implementation : Text
  pub network : Text

pub record ReportData (F : Type 0) : Type 0 where
  pub generated_at : Text
  pub network : Text
  pub own_node : OwnNode
  pub signalling : Option SignalStats
  pub chain_split : Option ChainSplit
  pub aggregates : Aggregates
  pub discovered_total : ℕ
  pub nodes : List NodeInfo
  pub edges : List Edge
  pub geo : Option (List (Text × GeoInfo F))
  pub live : Bool
  pub refresh_seconds : ℕ

abbrev pub unknown_own : OwnNode
unknown_own = record {
  addr = codes "self";
  version = pos 0;
  subversion = codes "(unknown)";
  implementation = codes "Unknown";
  network = codes "main";
}

abbrev pub or_else {ℓ} : {A : Type ℓ} → A → Option A → A
or_else d none = d
or_else d (some a) = a

abbrev pub and_then {ℓ κ} : {A : Type ℓ} {B : Type κ} → (A → Option B) → Option A → Option B
and_then f none = none
and_then f (some a) = f a

-- The pinned row of our own node comes first, then what was seen most often.
unfoldable pub shown_before : {F : Type 0} → NodeRecord F → NodeRecord F → Bool
shown_before a b =
    let own_a = a.depth == 0 in
    let own_b = b.depth == 0 in
    own_a && not own_b || (own_a || not own_b) && leb b.times_seen a.times_seen

-- LIMIT: a negative bound is none.
unfoldable pub limit_rows {ℓ} : {A : Type ℓ} → ℤ → List A → List A
limit_rows (pos n) xs = take n xs
limit_rows (negsuc n) xs = xs

unfoldable pub has_shown : Text → List NodeInfo → Bool
has_shown addr [] = false
has_shown addr (n ∷ nodes) = list_eq n.addr addr || has_shown addr nodes

-- The edges from one shown node to shown nodes.
unfoldable pub edges_from : Text → List NodeInfo → List Edge → List Edge
unfolding has_shown
edges_from addr nodes [] = []
edges_from addr nodes (e ∷ edges) =
    if list_eq e.from addr && has_shown e.to nodes
    then record { from = addr; to = e.to } ∷ edges_from addr nodes edges
    else edges_from addr nodes edges

unfoldable pub shown_edges : List NodeInfo → List NodeInfo → List Edge → List Edge
unfolding edges_from
shown_edges [] nodes edges = []
shown_edges (n ∷ rest) nodes edges = edges_from n.addr nodes edges ++ shown_edges rest nodes edges

module _ {F : Type 0} where
  -- `fresh_clause`, as a test of a row.
  unfoldable pub is_fresh : ℕ → ℕ → NodeRecord F → Bool
  is_fresh now max_age_secs r =
      if max_age_secs == 0
      then r.online == 1
      else (r.online == 1) && text_leb (iso_secs_ago now max_age_secs) r.last_seen

  unfoldable pub add_geo :
      NodeInfo → Option (GeoInfo F) → List (Text × GeoInfo F) → List (Text × GeoInfo F)
  add_geo n none geo = geo
  add_geo n (some g) geo = store n.addr g geo

  unfoldable pub shown_nodes : List (NodeInfo × Option (GeoInfo F)) → List NodeInfo
  shown_nodes [] = []
  shown_nodes ((n, g) ∷ rows) = n ∷ shown_nodes rows

  unfoldable pub shown_geo :
      List (NodeInfo × Option (GeoInfo F)) → List (Text × GeoInfo F) → List (Text × GeoInfo F)
  unfolding add_geo
  shown_geo [] geo = geo
  shown_geo ((n, g) ∷ rows) geo = shown_geo rows (add_geo n g geo)

  module _ (lower_other : ℕ → Text) where
    unfoldable pub count_row : NodeRecord F → Aggregates × List ℕ → Aggregates × List ℕ
    unfolding stance_label version_label measured
    count_row r (agg, latencies) =
        let online = not (r.online == 0) in
        (
          record agg {
            by_implementation = count_up r.implementation agg.by_implementation;
            by_version = count_up (version_label r.implementation r.version) agg.by_version;
            by_bip110 =
                count_up (stance_label (assess_bip110 lower_other r.user_agent [])) agg.by_bip110;
            handshaked_nodes =
                if not (r.handshaked == 0) then agg.handshaked_nodes + 1 else agg.handshaked_nodes;
            online_nodes = if online then agg.online_nodes + 1 else agg.online_nodes;
            onion_nodes =
                if contains (codes ".onion") r.addr then agg.onion_nodes + 1 else agg.onion_nodes;
          },
          measured online (map_some (λ v. v % 2 ^ 32) r.latency_ms) latencies,
        )

    unfoldable pub count_rows : List (NodeRecord F) → Aggregates × List ℕ → Aggregates × List ℕ
    unfolding count_row
    count_rows [] acc = acc
    count_rows (r ∷ rows) acc = count_rows rows (count_row r acc)

    unfoldable pub report_counts : List (NodeRecord F) → Aggregates
    unfolding count_rows with_latencies
    report_counts rows =
        with_latencies (count_rows rows (record no_counts { total_nodes = length rows }, []))

    -- The rows as nodes; one that is no node is an error of the whole query.
    unfoldable pub decode_rows : List (NodeRecord F) → Option (List (NodeInfo × Option (GeoInfo F)))
    unfolding row_to_node
    decode_rows [] = some []
    decode_rows (r ∷ rows) = elim (row_to_node lower_other r) [
      | none ↦ none
      | some n ↦ elim (decode_rows rows) [ none ↦ none | some ns ↦ some (n ∷ ns) ]
    ]

    module _ (own_of_json : Text → Option OwnNode)
        (signalling_of_json : Text → Option (Option SignalStats))
        (split_of_json : Text → Option ChainSplit) where
      unfoldable pub read_signalling : Db F → Option SignalStats
      read_signalling db =
          or_else none (and_then signalling_of_json (meta_get (codes "signalling") db))

      unfoldable pub read_chain_split : Db F → Option ChainSplit
      read_chain_split db = and_then split_of_json (meta_get (codes "chain_split") db)

      unfoldable pub read_report : ℕ → ℕ → ℕ → Db F → Option (ReportData F)
      unfolding is_fresh shown_before limit_rows decode_rows report_counts shown_edges shown_geo
          shown_nodes read_signalling read_chain_split to_i64
      read_report now max max_age_secs db =
          let fresh = filter (is_fresh now max_age_secs) db.nodes in
          elim (decode_rows (limit_rows (to_i64 max) (sort_with shown_before fresh))) [
            | none ↦ none
            | some rows ↦
                let nodes = shown_nodes rows in
                let geo = shown_geo rows [] in
                some (record {
                  generated_at = or_else [] (meta_get (codes "generated_at") db);
                  network = or_else (codes "main") (meta_get (codes "network") db);
                  own_node =
                      or_else unknown_own (and_then own_of_json (meta_get (codes "own_node") db));
                  signalling = read_signalling db;
                  chain_split = read_chain_split db;
                  aggregates = report_counts fresh;
                  discovered_total = length fresh;
                  nodes = nodes;
                  edges = shown_edges nodes nodes db.edges;
                  geo = elim geo [ [] ↦ none | g ∷ gs ↦ some (g ∷ gs) ];
                  live = true;
                  refresh_seconds = 10;
                })
          ]
