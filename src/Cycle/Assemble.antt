-- ===== src/Cycle/Assemble.antt =====
-- From the result of a crawl to the report (src/main.rs: own_node_record, reachable_only, cap_report,
-- assemble_report, geolocate_map, attach_own_geo).
pub mod Capped
pub mod Closed
use bip110_crawler.Common.{
  ℕ, Bool, true, false, not, ◌&&◌, ◌||◌, List, [], ◌∷◌, ◌++◌, Option, none, some, pos,
  if◌then◌else◌, leb, ◌==◌, length, take, Text, codes, list_eq, filter, lookup, store, sort_with,
}
use bip110_crawler.Node.{NodeInfo, Edge, Rule}
use bip110_crawler.Node.UserAgent.{classify_user_agent, assess_bip110}
use bip110_crawler.Node.Aggregates.{from_nodes}
use bip110_crawler.Rpc.Signalling.{SignalStats}
use bip110_crawler.Db.Nodes.{GeoInfo, flag}
use bip110_crawler.Db.Report.{OwnNode, ReportData, has_shown}

unfoldable pub own_node_record : (ℕ → Text) → OwnNode → List Rule → NodeInfo
own_node_record lower_other own rules = record {
  addr = own.addr;
  depth = 0;
  protocol_version = pos 0;
  user_agent = own.subversion;
  services = 0;
  start_height = pos 0;
  chain_hash = [];
  handshaked = true;
  implementation = own.implementation;
  version = (classify_user_agent lower_other own.subversion).1;
  bip110 = assess_bip110 lower_other own.subversion rules;
  first_seen = [];
  last_seen = [];
  times_seen = 0;
  online = true;
  latency_ms = none;
}

-- Both ends are kept.
unfoldable pub is_inside : List NodeInfo → Edge → Bool
unfolding has_shown
is_inside nodes e = has_shown e.from nodes && has_shown e.to nodes

unfoldable pub reachable_only : List NodeInfo × List Edge → List NodeInfo × List Edge
unfolding is_inside
reachable_only (nodes, edges) =
    let kept = filter (λ (n : NodeInfo). n.online) nodes in (kept, filter (is_inside kept) edges)

-- `sort_by_key(|n| !n.online)`
unfoldable pub online_first : NodeInfo → NodeInfo → Bool
unfolding flag
online_first a b = leb (flag (not a.online)) (flag (not b.online))

unfoldable pub cap_report : ℕ → List NodeInfo × List Edge → List NodeInfo × List Edge
unfolding online_first is_inside
cap_report max (nodes, edges) =
    if (max == 0) || leb (length nodes) max
    then (nodes, edges)
    else (let kept = take max (sort_with online_first nodes) in
        (kept, filter (is_inside kept) edges))

-- The placeholder seed of our own node.
abbrev pub placeholder : Text
placeholder = codes "127.0.0.1:0"

-- The own node in place of its placeholder, with its edges.
unfoldable pub splice_own :
    Option NodeInfo → List Edge → List NodeInfo × List Edge → List NodeInfo × List Edge
splice_own own_info own_edges (nodes, edges) =
    let kept = filter (λ (n : NodeInfo). not (list_eq n.addr placeholder)) nodes in
    elim own_info [ none ↦ (kept, edges) | some own ↦ (kept ++ own ∷ [], edges ++ own_edges) ]

module _ {F : Type 0} where
  unfoldable pub assemble_report :
      List NodeInfo × List Edge
      → Option NodeInfo
      → List Edge
      → OwnNode
      → Option SignalStats
      → Option (List (Text × GeoInfo F))
      → Text
      → Text
      → Bool
      → ℕ
      → ℕ
      → ReportData F
  unfolding splice_own from_nodes
  assemble_report graph own_info own_edges report_own signalling geo network generated_at live
        refresh_seconds discovered_total =
      let (nodes, edges) = splice_own own_info own_edges graph in
      record {
        generated_at = generated_at;
        network = network;
        own_node = report_own;
        signalling = signalling;
        chain_split = none;
        aggregates = from_nodes nodes;
        discovered_total = discovered_total;
        nodes = nodes;
        edges = edges;
        geo = geo;
        live = live;
        refresh_seconds = refresh_seconds;
      }

  -- `ip_of` is the address parser of the standard library, and given with the text of its result.
  module _ (ip_of : Text → Option Text)
      (geolocate_cached : List Text → List (Text × GeoInfo F)) where
    unfoldable pub has_ip : Text → List Text → Bool
    has_ip ip [] = false
    has_ip ip (j ∷ ips) = list_eq j ip || has_ip ip ips

    -- Each IP once, in the order in which it is met.
    unfoldable pub distinct_ips : List NodeInfo → List Text → List Text
    unfolding has_ip
    distinct_ips [] ips = ips
    distinct_ips (n ∷ nodes) ips = distinct_ips nodes (elim (ip_of n.addr) [
      | none ↦ ips
      | some ip ↦ if has_ip ip ips then ips else ips ++ ip ∷ []
    ])

    unfoldable pub by_addr :
        List NodeInfo → List (Text × GeoInfo F) → List (Text × GeoInfo F) → List (Text × GeoInfo F)
    by_addr [] by_ip out = out
    by_addr (n ∷ nodes) by_ip out = by_addr nodes by_ip (elim (ip_of n.addr) [
      | none ↦ out
      | some ip ↦ elim (lookup ip by_ip) [ none ↦ out | some g ↦ store n.addr g out ]
    ])

    unfoldable pub geolocate_map : List NodeInfo → List (Text × GeoInfo F)
    unfolding distinct_ips by_addr
    geolocate_map nodes = by_addr nodes (geolocate_cached (distinct_ips nodes [])) []

    unfoldable pub attach_own_geo :
        Text → Option Text → List (Text × GeoInfo F) → List (Text × GeoInfo F)
    attach_own_geo own_addr none geo = geo
    attach_own_geo own_addr (some ip) geo = elim (lookup ip (geolocate_cached (ip ∷ []))) [
      | none ↦ geo
      | some g ↦ store own_addr g geo
    ]
