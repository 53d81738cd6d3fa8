-- ===== src/Node/Latency.antt =====
-- The handshake-latency histogram (src/node.rs: `latency_histogram`). A u32 that counts nodes is an
-- unbounded number here.
pub mod Bands
use bip110_crawler.Common.{
  ℕ, zero, suc, ◌+◌, ◌/◌, List, [], ◌∷◌, ◌++◌, Option, none, some, if◌then◌else◌, ltb, length,
  get_elem?, replicate, sort_unstable,
}

pub record LatencyBucket : Type 0 where
  pub min_ms : ℕ
  pub max_ms : Option ℕ
  pub count : ℕ

-- LATENCY_BUCKET_EDGES
abbrev pub latency_bucket_edges : List ℕ
latency_bucket_edges = 50 ∷ 100 ∷ 200 ∷ 400 ∷ 800 ∷ 1500 ∷ 3000 ∷ []

-- `position(|&e| ms < e).unwrap_or(n)`
unfoldable pub band_index : List ℕ → ℕ → ℕ
band_index [] ms = 0
band_index (e ∷ edges) ms = if ltb ms e then 0 else suc (band_index edges ms)

-- `counts[i] += 1`; an index out of range would panic, and changes nothing here.
unfoldable pub bump : ℕ → List ℕ → List ℕ
bump i [] = []
bump zero (c ∷ counts) = (c + 1) ∷ counts
bump (suc i) (c ∷ counts) = c ∷ bump i counts

unfoldable pub tally : List ℕ → List ℕ → List ℕ → List ℕ
unfolding bump band_index
tally edges [] counts = counts
tally edges (ms ∷ latencies) counts = tally edges latencies (bump (band_index edges ms) counts)

push_bucket : ℕ → Option ℕ → ℕ → List LatencyBucket → List LatencyBucket
push_bucket lo hi count rest =
    if ltb 0 count then record { min_ms = lo; max_ms = hi; count = count } ∷ rest else rest

-- The loop over the counts, whose lower edge `lo` moves up while there are edges.
unfoldable pub bucket_loop : ℕ → List ℕ → List ℕ → List LatencyBucket
unfolding push_bucket
bucket_loop lo edges [] = []
bucket_loop lo [] (c ∷ counts) = push_bucket lo none c (bucket_loop lo [] counts)
bucket_loop lo (e ∷ edges) (c ∷ counts) = push_bucket lo (some e) c (bucket_loop e edges counts)

-- The index of the median is in range, as the list is not empty.
unfoldable pub latency_histogram : List ℕ → List LatencyBucket × Option ℕ
unfolding tally bucket_loop
latency_histogram [] = ([], none)
latency_histogram (l ∷ latencies) =
    let sorted = sort_unstable (l ∷ latencies) in
    let counts =
      tally latency_bucket_edges sorted (replicate (length latency_bucket_edges + 1) 0) in
    (bucket_loop 0 latency_bucket_edges counts, get_elem? sorted (length sorted / 2))
