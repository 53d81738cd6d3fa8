-- ===== src/Node/Latency/Bands.antt =====
-- The histogram counts each band, and the median is one (src/node.rs).
use bip110_crawler.Common.{
  ℕ, zero, suc, ◌+◌, ◌/◌, ◌≤◌, ◌<◌, ◌≡◌, refl, sym, ap, ◌∙◌, Bool, ◌&&◌, List, [], ◌∷◌, Option,
  none, some, if◌then◌else◌, ltb, leb, length, get_elem?, replicate, count, count-sort_by,
  sort_unstable, sort_unstable-Sorted, length-sort_by, Sorted-rank, Bool-cases, Option-cases, ◌≢◌,
  inl, inr, arith,
}
use mathlib.Core.Path.{ap₂}
use bip110_crawler.Node.Latency.{
  LatencyBucket, latency_bucket_edges, band_index, bump, tally, bucket_loop, push_bucket,
  latency_histogram,
}

-- A measurement in the band from `lo` up to, not including, `hi`.
abbrev pub in_band : ℕ → Option ℕ → ℕ → Bool
in_band lo none ms = leb lo ms
in_band lo (some hi) ms = leb lo ms && ltb ms hi

-- The bands between the edges, from `lo` on.
abbrev pub bands : ℕ → List ℕ → List (ℕ × Option ℕ)
bands lo [] = (lo, none) ∷ []
bands lo (e ∷ edges) = (lo, some e) ∷ bands e edges

abbrev in_bands : List (ℕ × Option ℕ) → List ℕ → List ℕ
in_bands [] xs = []
in_bands ((lo, hi) ∷ bs) xs = count (in_band lo hi) xs ∷ in_bands bs xs

-- The bands that hold a measurement, with how many they hold.
abbrev pub filled : List (ℕ × Option ℕ) → List ℕ → List LatencyBucket
filled [] xs = []
filled ((lo, hi) ∷ bs) xs =
    let n = count (in_band lo hi) xs in
    if ltb 0 n then record { min_ms = lo; max_ms = hi; count = n } ∷ filled bs xs else filled bs xs

abbrev Ascending : ℕ → List ℕ → Type 0
Ascending lo [] = Unit
Ascending lo (e ∷ edges) = (lo ≤ e) × Ascending e edges

-- A measurement below all bands is in none.
below :
    (lo ms : ℕ) (edges xs : List ℕ)
    → Ascending lo edges
    → ms < lo
    → in_bands (bands lo edges) (ms ∷ xs) ≡ in_bands (bands lo edges) xs
unfolding count
below lo ms [] xs a h = ap (λ (n : ℕ). n ∷ []) (ground arith)
below lo ms (e ∷ edges) xs a h =
    ap₂ ◌∷◌ (ground arith) (below e ms edges xs a.1 (omega (arith, a.0)))

bump-in_bands :
    (lo ms : ℕ) (edges xs : List ℕ)
    → Ascending lo edges
    → lo ≤ ms
    → bump (band_index edges ms) (in_bands (bands lo edges) xs)
      ≡ in_bands (bands lo edges) (ms ∷ xs)
unfolding count bump band_index
bump-in_bands lo ms [] xs a h = ap (λ (n : ℕ). n ∷ []) (ground arith)
bump-in_bands lo ms (e ∷ edges) xs a h = elim (Bool-cases (ltb ms e)) [
  | inl near ↦
      rw (near, band_index) (ap₂ ◌∷◌ (ground arith) (sym (below e ms edges xs a.1 (ground arith))))
  | inr far ↦
      rw (far, band_index) (ap₂ ◌∷◌ (ground arith) (bump-in_bands e ms edges xs a.1 (ground arith)))
]

-- The measurements `xs` that the loop still visits, before those that it has counted.
abbrev onto : List ℕ → List ℕ → List ℕ
onto [] ys = ys
onto (x ∷ xs) ys = onto xs (x ∷ ys)

count-onto : (p : ℕ → Bool) (xs ys : List ℕ) → count p (onto xs ys) ≡ count p xs + count p ys
unfolding count
count-onto p [] ys = omega arith
count-onto p (x ∷ xs) ys = omega (arith, count-onto p xs (x ∷ ys))

tally-in_bands :
    (edges xs ys : List ℕ)
    → Ascending 0 edges
    → tally edges xs (in_bands (bands 0 edges) ys) ≡ in_bands (bands 0 edges) (onto xs ys)
unfolding tally
tally-in_bands edges [] ys a = refl
tally-in_bands edges (x ∷ xs) ys a =
    ap (tally edges xs) (bump-in_bands 0 x edges ys a (omega arith))
    ∙ tally-in_bands edges xs (x ∷ ys) a

bucket_loop-filled :
    (lo : ℕ) (edges xs : List ℕ)
    → bucket_loop lo edges (in_bands (bands lo edges) xs) ≡ filled (bands lo edges) xs
unfolding bucket_loop
bucket_loop-filled lo [] xs = unfold push_bucket in refl
bucket_loop-filled lo (e ∷ edges) xs =
    rw (bucket_loop-filled e edges xs) (unfold push_bucket in refl)

filled-same :
    (bs : List (ℕ × Option ℕ)) (xs ys : List ℕ)
    → ((p : ℕ → Bool) → count p xs ≡ count p ys)
    → filled bs xs ≡ filled bs ys
filled-same [] xs ys h = refl
filled-same ((lo, hi) ∷ bs) xs ys h = rw (h (in_band lo hi), filled-same bs xs ys h) refl

-- The histogram has, in ascending order, each band between the edges that holds a measurement, with
-- the number of measurements from its lower edge up to, not including, its upper edge.
pub latency_histogram-bands :
    (latencies : List ℕ)
    → (latency_histogram latencies).0 ≡ filled (bands 0 latency_bucket_edges) latencies
unfolding latency_histogram
latency_histogram-bands [] = unfold count in refl
latency_histogram-bands (l ∷ latencies) =
    let xs = l ∷ latencies in
    let counted : tally latency_bucket_edges (sort_unstable xs) (replicate 8 0)
        ≡ in_bands (bands 0 latency_bucket_edges) (onto (sort_unstable xs) []) =
      unfold count in
      tally-in_bands latency_bucket_edges (sort_unstable xs) [] (
        omega arith,
        (
          omega arith,
          (omega arith, (omega arith, (omega arith, (omega arith, (omega arith, tt))))),
        ),
      ) in
    ap (bucket_loop 0 latency_bucket_edges) counted
    ∙ bucket_loop-filled 0 latency_bucket_edges (onto (sort_unstable xs) [])
    ∙ filled-same (bands 0 latency_bucket_edges) (onto (sort_unstable xs) []) xs (λ p.
      count-onto p (sort_unstable xs) [] ∙ omega (arith, count-sort_by p leb xs, none_left p))
  where
    none_left : (p : ℕ → Bool) → count p [] ≡ 0
    none_left p = unfold count in refl

-- The median of at least one measurement is there, at most half of the measurements lie below it,
-- and more than half do not lie above it.
pub latency_histogram-median :
    (l : ℕ) (latencies : List ℕ)
    → (m : ℕ) × ((latency_histogram (l ∷ latencies)).1 ≡ some m)
      × (count (λ x. ltb x m) (l ∷ latencies) ≤ length (l ∷ latencies) / 2)
      × (length (l ∷ latencies) / 2 < count (λ x. leb x m) (l ∷ latencies))
unfolding latency_histogram
latency_histogram-median l latencies =
    let xs = l ∷ latencies in
    let sorted = sort_unstable xs in
    elim (Option-cases (get_elem? sorted (length sorted / 2))) [
      | inl q ↦
          absurd (out_of_range sorted (length sorted / 2) (omega (arith, length-sort_by leb xs)) q)
      | inr (m, q) ↦
          let (b, a) = Sorted-rank sorted (length sorted / 2) m (sort_unstable-Sorted xs) q in
          (
            m,
            q,
            omega (arith, b, length-sort_by leb xs, count-sort_by (λ x. ltb x m) leb xs),
            omega (arith, a, length-sort_by leb xs, count-sort_by (λ x. leb x m) leb xs),
          )
    ]
  where
    out_of_range : (ys : List ℕ) (i : ℕ) → i < length ys → get_elem? ys i ≢ none
    out_of_range [] i h e = absurd (omega arith)
    out_of_range (y ∷ ys) zero h e = cc
    out_of_range (y ∷ ys) (suc i) h e = out_of_range ys i (omega arith) e
