-- ===== src/Node/Aggregates.antt =====
-- The aggregate counts of a report (src/node.rs: Aggregates).
use bip110_crawler.Common.{
  ℕ, ◌+◌, Bool, List, [], ◌∷◌, ◌++◌, Option, none, some, if◌then◌else◌, Text, codes, contains,
  count_up,
}
use bip110_crawler.Crawler.Tasks.{is_empty}
use bip110_crawler.Node.{NodeInfo, Stance, enforcing, not_enforcing, unknown}
use bip110_crawler.Node.Latency.{LatencyBucket, latency_histogram}

pub record Aggregates : Type 0 where
  pub by_implementation : List (Text × ℕ)
  pub by_version : List (Text × ℕ)
  pub by_bip110 : List (Text × ℕ)
  pub total_nodes : ℕ
  pub handshaked_nodes : ℕ
  pub online_nodes : ℕ
  pub onion_nodes : ℕ
  pub latency_buckets : List LatencyBucket
  pub median_latency_ms : Option ℕ

-- `Aggregates::default`
abbrev pub no_counts : Aggregates
no_counts = record {
  by_implementation = [];
  by_version = [];
  by_bip110 = [];
  total_nodes = 0;
  handshaked_nodes = 0;
  online_nodes = 0;
  onion_nodes = 0;
  latency_buckets = [];
  median_latency_ms = none;
}

unfoldable pub stance_label : Stance → Text
stance_label enforcing = codes "BIP-110 ready"
stance_label not_enforcing = codes "Not ready"
stance_label unknown = codes "Unknown"

unfoldable pub version_label : Text → Text → Text
version_label im ver = if is_empty ver then im else im ++ (codes " " ++ ver)

-- The latency of a node that is online, if it was measured.
unfoldable pub measured : Bool → Option ℕ → List ℕ → List ℕ
measured online none latencies = latencies
measured online (some ms) latencies = if online then latencies ++ ms ∷ [] else latencies

unfoldable pub count_node : NodeInfo → Aggregates × List ℕ → Aggregates × List ℕ
unfolding stance_label version_label measured
count_node n (agg, latencies) = (
  record agg {
    total_nodes = agg.total_nodes + 1;
    handshaked_nodes = if n.handshaked then agg.handshaked_nodes + 1 else agg.handshaked_nodes;
    online_nodes = if n.online then agg.online_nodes + 1 else agg.online_nodes;
    onion_nodes = if contains (codes ".onion") n.addr then agg.onion_nodes + 1 else agg.onion_nodes;
    by_implementation = count_up n.implementation agg.by_implementation;
    by_version = count_up (version_label n.implementation n.version) agg.by_version;
    by_bip110 = count_up (stance_label n.bip110) agg.by_bip110;
  },
  measured n.online n.latency_ms latencies,
)

unfoldable pub count_nodes : List NodeInfo → Aggregates × List ℕ → Aggregates × List ℕ
unfolding count_node
count_nodes [] acc = acc
count_nodes (n ∷ nodes) acc = count_nodes nodes (count_node n acc)

-- The histogram and the median of the latencies.
unfoldable pub with_latencies : Aggregates × List ℕ → Aggregates
with_latencies (agg, latencies) = record agg {
  latency_buckets = (latency_histogram latencies).0;
  median_latency_ms = (latency_histogram latencies).1;
}

unfoldable pub from_nodes : List NodeInfo → Aggregates
unfolding count_nodes with_latencies
from_nodes nodes = with_latencies (count_nodes nodes (no_counts, []))
