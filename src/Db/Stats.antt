-- ===== src/Db/Stats.antt =====
-- The ticker and the statistics of the API, and the maintenance run over the miners' tags (src/db.rs:
-- read_ticker, read_stats, backfill_miners). The aggregates of SQL read the list of rows.
use bip110_crawler.Common.{
  ℕ, zero, suc, ◌+◌, ◌/◌, ◌%◌, ◌^◌, Bool, not, ◌&&◌, List, [], ◌∷◌, ◌++◌, Option, none, some, ℤ,
  if◌then◌else◌, leb, ◌==◌, length, take, drop, get_or, map, count, Text, codes, list_eq, text_leb,
  filter, sort_unstable, sort_with, Result, ok, err, sub_ℕ,
}
use mathlib.Core.List.{reverse}
use bip110_crawler.Node.Latency.{LatencyBucket, latency_histogram}
use bip110_crawler.Rpc.Signalling.{SignalStats}
use bip110_crawler.Rpc.Blocks.{BlockInfo}
use bip110_crawler.Time.{iso_secs_ago}
use bip110_crawler.Db.Nodes.{NodeRecord, is_blank, or_empty}
use bip110_crawler.Db.Blocks.{BlockRow, write_blocks}
use bip110_crawler.Db.Snapshot.{Db, HistoryPoint, is_onion_row, meta_get}
use bip110_crawler.Db.Report.{is_fresh, or_else}

pub record TickerTip : Type 0 where
  pub height : ℕ
  pub time : ℤ
  pub signals : Bool
  pub miner : Text
  pub tx_count : ℕ

pub record Ticker : Type 0 where
  pub generated_at : Text
  pub reachable : ℕ
  pub onion : ℕ
  pub new_1h : ℕ
  pub new_24h : ℕ
  pub tip : Option TickerTip
  pub signalling : Option SignalStats

-- ORDER BY height DESC LIMIT 1
unfoldable pub ticker_tip : List BlockRow → Option TickerTip
ticker_tip [] = none
ticker_tip (r ∷ rows) = some (record {
  height = r.info.height;
  time = r.info.time;
  signals = r.info.signals;
  miner = r.info.miner;
  tx_count = r.info.tx_count;
})

-- The latencies of an implementation, in the order of the keys.
unfoldable pub add_latency : Text → ℕ → List (Text × List ℕ) → List (Text × List ℕ)
add_latency im ms [] = (im, ms ∷ []) ∷ []
add_latency im ms ((k, l) ∷ m) =
    if list_eq k im
    then (k, l ++ ms ∷ []) ∷ m
    else if text_leb k im
    then (k, l) ∷ add_latency im ms m
    else (im, ms ∷ []) ∷ (k, l) ∷ m

unfoldable pub all_latencies : List (Text × List ℕ) → List ℕ
all_latencies [] = []
all_latencies ((k, l) ∷ m) = l ++ all_latencies m

-- MIN_LATENCY_SAMPLE
abbrev pub min_latency_sample : ℕ
min_latency_sample = 5

unfoldable pub medians : List (Text × List ℕ) → List (Text × ℕ)
medians [] = []
medians ((k, l) ∷ m) =
    if leb min_latency_sample (length l)
    then (k, get_or (sort_unstable l) (length l / 2) 0) ∷ medians m
    else medians m

-- COUNT(DISTINCT …)
unfoldable pub distinct : List Text → ℕ
distinct [] = 0
distinct (t ∷ ts) = (if leb 1 (count (list_eq t) ts) then 0 else 1) + distinct ts

pub record Stats : Type 0 where
  pub total_addresses : ℕ
  pub reachable : ℕ
  pub onion : ℕ
  pub unreachable : ℕ
  pub online_raw : ℕ
  pub aged_out : ℤ
  pub edges : ℕ
  pub distinct_versions : ℕ
  pub max_age_hours : ℕ
  pub history : List (Text × HistoryPoint)
  pub sampled : ℕ
  pub median_ms : Option ℕ
  pub buckets : List LatencyBucket
  pub by_implementation_median_ms : List (Text × ℕ)

-- ORDER BY hour DESC
unfoldable pub later_hour : Text × HistoryPoint → Text × HistoryPoint → Bool
later_hour (h, p) (k, q) = text_leb k h

module _ {F : Type 0} where
  -- first_seen <> '' AND first_seen >= ?1
  unfoldable pub is_new : Text → NodeRecord F → Bool
  is_new since r = not (is_blank r.first_seen) && text_leb since (or_empty r.first_seen)

  unfoldable pub read_ticker : (Db F → Option SignalStats) → ℕ → ℕ → Db F → Ticker
  unfolding is_new ticker_tip
  read_ticker read_signalling now max_age_secs db =
      let fresh = is_fresh now max_age_secs in
      record {
        generated_at = or_else [] (meta_get (codes "generated_at") db);
        reachable = count fresh db.nodes;
        onion = count (λ (r : NodeRecord F). fresh r && is_onion_row r) db.nodes;
        new_1h = count (is_new (iso_secs_ago now 3600)) db.nodes;
        new_24h = count (is_new (iso_secs_ago now 86400)) db.nodes;
        tip = ticker_tip db.blocks;
        signalling = read_signalling db;
      }

  unfoldable pub latencies_by_implementation :
      List (NodeRecord F) → List (Text × List ℕ) → List (Text × List ℕ)
  unfolding add_latency
  latencies_by_implementation [] m = m
  latencies_by_implementation (r ∷ rows) m =
      latencies_by_implementation rows
        (elim r.latency_ms [ none ↦ m | some ms ↦ add_latency r.implementation (ms % 2 ^ 32) m ])

  unfoldable pub read_stats : ℕ → ℕ → Db F → Stats
  unfolding latencies_by_implementation all_latencies medians distinct later_hour
  read_stats now max_age_secs db =
      let fresh = is_fresh now max_age_secs in
      let rows = filter fresh db.nodes in
      let online_raw = count (λ (r : NodeRecord F). r.online == 1) db.nodes in
      let samples = latencies_by_implementation rows [] in
      let histogram = latency_histogram (all_latencies samples) in
      record {
        total_addresses = length db.nodes;
        reachable = count fresh db.nodes;
        onion = count (λ (r : NodeRecord F). fresh r && is_onion_row r) db.nodes;
        unreachable = count (λ (r : NodeRecord F). r.online == 0) db.nodes;
        online_raw = online_raw;
        aged_out = sub_ℕ online_raw (count fresh db.nodes);
        edges = length db.edges;
        distinct_versions =
            distinct
              (map (λ (r : NodeRecord F). r.implementation ++ (codes " " ++ r.version)) rows);
        max_age_hours = max_age_secs / 3600;
        history = reverse (take 720 (sort_with later_hour db.history));
        sampled = length (all_latencies samples);
        median_ms = histogram.1;
        buckets = histogram.0;
        by_implementation_median_ms = medians samples;
      }

-- The chunks of `heights.chunks(200)`, with as many rounds as there are heights.
unfoldable pub chunks {ℓ} : {A : Type ℓ} → ℕ → ℕ → List A → List (List A)
chunks zero size xs = []
chunks (suc fuel) size [] = []
chunks (suc fuel) size (x ∷ xs) = take size (x ∷ xs) ∷ chunks fuel size (drop size (x ∷ xs))

unfoldable pub backfill_chunks :
    (List ℕ → Result (List BlockInfo))
    → List (List ℕ)
    → List BlockRow
    → List BlockRow × Result (Unit {0})
backfill_chunks blocks_at_heights [] rows = (rows, ok tt)
backfill_chunks blocks_at_heights (chunk ∷ rest) rows = elim (blocks_at_heights chunk) [
  | err e ↦ (rows, err e)
  | ok fresh ↦ backfill_chunks blocks_at_heights rest (write_blocks fresh rows)
]

-- The heights from the lowest up, fetched again in chunks and written back.
unfoldable pub backfill_miners :
    (List ℕ → Result (List BlockInfo)) → List BlockRow → List BlockRow × Result (Unit {0})
unfolding chunks backfill_chunks
backfill_miners blocks_at_heights rows =
    let heights = reverse (map (λ (r : BlockRow). r.info.height) rows) in
    backfill_chunks blocks_at_heights (chunks (length heights) 200 heights) rows
