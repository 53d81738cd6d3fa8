-- ===== src/Db/Report/Shown.antt =====
-- The report counts what the crawler would count, and shows a bounded, closed part of the network
-- (src/db.rs).
use bip110_crawler.Common.{
  none, ◌⊎◌, ltb, Bool-cases, ℕ, suc, ◌+◌, ◌≤◌, ◌<◌, ◌≡◌, ◌^◌, refl, ap, sym, ◌∙◌, subst, inl, inr,
  true, ◌&&◌, List, [], ◌∷◌, Option, some, length, All, All-append, Text, list_eq, list_eq_refl,
  filter, sort_with, arith, Bool-cases, Option-cases, length-take, lt→ltb,
}
use mathlib.Core.Option.{some-injective}
use bip110_crawler.Node.{NodeInfo, Edge}
use bip110_crawler.Node.ChainSplit.{ChainSplit}
use bip110_crawler.Node.Aggregates.{
  Aggregates, no_counts, count_node, count_nodes, from_nodes, with_latencies,
}
use bip110_crawler.Rpc.Signalling.{SignalStats}
use bip110_crawler.Db.Nodes.{GeoInfo, NodeRecord, to_i64, row_to_node}
use bip110_crawler.Db.Snapshot.{Db}
use bip110_crawler.Db.Report.{
  OwnNode, ReportData, is_fresh, shown_before, limit_rows, has_shown, edges_from, shown_edges,
  shown_nodes, count_row, count_rows, report_counts, decode_rows, read_report,
}

-- An edge whose two ends are shown.
abbrev pub IsShown : List NodeInfo → Edge → Type 0
IsShown nodes e = (has_shown e.from nodes ≡ true) × (has_shown e.to nodes ≡ true)

edges_from-IsShown :
    (addr : Text) (nodes : List NodeInfo) (edges : List Edge)
    → has_shown addr nodes ≡ true
    → All (IsShown nodes) (edges_from addr nodes edges)
unfolding edges_from
edges_from-IsShown addr nodes [] h = tt
edges_from-IsShown addr nodes (e ∷ edges) h =
    elim (Bool-cases (list_eq e.from addr && has_shown e.to nodes)) [
      | inl y ↦ rw y ((h, ground (arith, y)), edges_from-IsShown addr nodes edges h)
      | inr n ↦ rw n (edges_from-IsShown addr nodes edges h)
    ]

shown_edges-IsShown :
    (rest nodes : List NodeInfo) (edges : List Edge)
    → All (λ (n : NodeInfo). has_shown n.addr nodes ≡ true) rest
    → All (IsShown nodes) (shown_edges rest nodes edges)
unfolding shown_edges
shown_edges-IsShown [] nodes edges a = tt
shown_edges-IsShown (n ∷ rest) nodes edges a =
    All-append (IsShown nodes) (edges_from n.addr nodes edges) (shown_edges rest nodes edges)
      (edges_from-IsShown n.addr nodes edges a.0) (shown_edges-IsShown rest nodes edges a.1)

shown_more :
    (m : NodeInfo) (xs nodes : List NodeInfo)
    → All (λ (n : NodeInfo). has_shown n.addr nodes ≡ true) xs
    → All (λ (n : NodeInfo). has_shown n.addr (m ∷ nodes) ≡ true) xs
unfolding has_shown
shown_more m [] nodes a = tt
shown_more m (n ∷ xs) nodes a = (ground (arith, a.0), shown_more m xs nodes a.1)

shown_self : (nodes : List NodeInfo) → All (λ (n : NodeInfo). has_shown n.addr nodes ≡ true) nodes
unfolding has_shown
shown_self [] = tt
shown_self (n ∷ nodes) =
    (rw (list_eq_refl n.addr) refl, shown_more n nodes nodes (shown_self nodes))

length-limit_rows {ℓ} :
    {A : Type ℓ} (max : ℕ) (xs : List A) → max < 2 ^ 63 → length (limit_rows (to_i64 max) xs) ≤ max
unfolding limit_rows to_i64
length-limit_rows max xs h = rw (lt→ltb max (2 ^ 63) h) (omega (arith, length-take max xs))

abbrev with_total : ℕ → Aggregates × List ℕ → Aggregates × List ℕ
with_total k (agg, latencies) = (record agg { total_nodes = k }, latencies)

module _ {F : Type 0} (lower_other : ℕ → Text) where
  -- One row and the node that it decodes to count alike, the total aside.
  count_row-count_node :
      (r : NodeRecord F) (n : NodeInfo) (g : Option (GeoInfo F)) (acc : Aggregates × List ℕ) (k : ℕ)
      → row_to_node lower_other r ≡ some (n, g)
      → count_node n (with_total k acc) ≡ with_total (k + 1) (count_row lower_other r acc)
  unfolding row_to_node count_node count_row
  count_row-count_node r n g acc k q = elim (Option-cases r.first_seen) [
    | inl null ↦ absurd (cc (rw null at q))
    | inr (t, e) ↦
        subst
          (λ x. count_node x (with_total k acc) ≡ with_total (k + 1) (count_row lower_other r acc))
          (ap (λ p. p.0) (some-injective _ _ (rw e at q))) refl
  ]

  count_rows-count_nodes :
      (rows : List (NodeRecord F)) (ns : List (NodeInfo × Option (GeoInfo F)))
      (acc : Aggregates × List ℕ) (k : ℕ)
      → decode_rows lower_other rows ≡ some ns
      → count_nodes (shown_nodes ns) (with_total k acc)
        ≡ with_total (k + length rows) (count_rows lower_other rows acc)
  unfolding decode_rows count_nodes count_rows shown_nodes
  count_rows-count_nodes [] [] acc k q =
      let same : k ≡ k + 0 = omega arith in ap (λ t. with_total t acc) same
  count_rows-count_nodes [] (n ∷ ns) acc k q = absurd (cc (some-injective _ _ q))
  count_rows-count_nodes (r ∷ rows) ms acc k q = elim (Option-cases (row_to_node lower_other r)) [
    | inl bad ↦ absurd (cc (rw (bad, decode_rows) at q))
    | inr ((n, g), good) ↦ elim (Option-cases (decode_rows lower_other rows)) [
      | inl bad ↦ absurd (cc (rw (good, bad, decode_rows) at q))
      | inr (ns, rest) ↦
          let same : (n, g) ∷ ns ≡ ms = some-injective _ _ (rw (good, rest, decode_rows) at q) in
          let sum : k + 1 + length rows ≡ k + suc (length rows) = omega arith in
          subst
            (λ xs.
              count_nodes (shown_nodes xs) (with_total k acc)
              ≡ with_total (k + suc (length rows))
                  (count_rows lower_other rows (count_row lower_other r acc)))
            same
            (ap (count_nodes (shown_nodes ns)) (count_row-count_node r n g acc k good)
              ∙ count_rows-count_nodes rows ns (count_row lower_other r acc) (k + 1) rest
              ∙ ap (λ t. with_total t (count_rows lower_other rows (count_row lower_other r acc)))
                  sum)
    ]
  ]

  total-count_rows :
      (rows : List (NodeRecord F)) (acc : Aggregates × List ℕ)
      → (count_rows lower_other rows acc).0.total_nodes ≡ acc.0.total_nodes
  unfolding count_rows count_row
  total-count_rows [] acc = refl
  total-count_rows (r ∷ rows) acc = total-count_rows rows (count_row lower_other r acc)

  -- The counts that the API makes from the rows are those that the crawler would make from the nodes
  -- that the rows decode to: the two ways to aggregate agree, histogram and median included.
  pub report_counts-from_nodes :
      (rows : List (NodeRecord F)) (ns : List (NodeInfo × Option (GeoInfo F)))
      → decode_rows lower_other rows ≡ some ns
      → report_counts lower_other rows ≡ from_nodes (shown_nodes ns)
  unfolding report_counts from_nodes
  report_counts-from_nodes rows ns q =
      let start : Aggregates × List ℕ = (record no_counts { total_nodes = length rows }, []) in
      let ends = count_rows lower_other rows start in
      let none_before : length rows ≡ 0 + length rows = omega arith in
      ap with_latencies (
        ap (λ t. with_total t ends) (total-count_rows rows start ∙ none_before)
        ∙ sym (count_rows-count_nodes rows ns start 0 q))

  length-decode_rows :
      (rows : List (NodeRecord F)) (ns : List (NodeInfo × Option (GeoInfo F)))
      → decode_rows lower_other rows ≡ some ns
      → length (shown_nodes ns) ≡ length rows
  unfolding decode_rows shown_nodes
  length-decode_rows [] ns q = subst (λ x. length (shown_nodes x) ≡ 0) (some-injective _ _ q) refl
  length-decode_rows (r ∷ rows) ms q = elim (Option-cases (row_to_node lower_other r)) [
    | inl bad ↦ absurd (cc (rw (bad, decode_rows) at q))
    | inr (n, good) ↦ elim (Option-cases (decode_rows lower_other rows)) [
      | inl bad ↦ absurd (cc (rw (good, bad, decode_rows) at q))
      | inr (ns, rest) ↦
          subst (λ x. length (shown_nodes x) ≡ suc (length rows))
            (some-injective _ _ (rw (good, rest, decode_rows) at q))
            (ap suc (length-decode_rows rows ns rest))
    ]
  ]

  module _ (own_of_json : Text → Option OwnNode)
      (signalling_of_json : Text → Option (Option SignalStats))
      (split_of_json : Text → Option ChainSplit) where
    -- Of a report that is read: with a bound below 2^63 it shows no more nodes than the bound; both
    -- ends of every edge are shown nodes; and the aggregates are the crawler's own for all the
    -- fresh nodes, shown or not, if those decode.
    pub read_report-Shown :
        (now max max_age_secs : ℕ) (db : Db F) (report : ReportData F)
        → read_report lower_other own_of_json signalling_of_json split_of_json now max max_age_secs
            db
          ≡ some report
        → ((2 ^ 63 ≤ max) ⊎ (length report.nodes ≤ max))
          × All (IsShown report.nodes) report.edges
          × ((decode_rows lower_other (filter (is_fresh now max_age_secs) db.nodes) ≡ none)
              ⊎ ((ns : List (NodeInfo × Option (GeoInfo F))) × (decode_rows lower_other
                      (filter (is_fresh now max_age_secs) db.nodes)
                    ≡ some ns)
                  × (report.aggregates ≡ from_nodes (shown_nodes ns))))
    unfolding read_report to_i64 limit_rows
    read_report-Shown now max max_age_secs db report q =
        let fresh = filter (is_fresh now max_age_secs) db.nodes in
        let rows = limit_rows (to_i64 max) (sort_with shown_before fresh) in
        elim (Option-cases (decode_rows lower_other rows)) [
          | inl bad ↦ absurd (cc (rw (bad, read_report) at q))
          | inr (ns, good) ↦
              let same = some-injective _ _ (rw (good, read_report) at q) in
              (
                elim (Bool-cases (ltb max (2 ^ 63))) [
                  | inr wide ↦ inl (ground arith)
                  | inl narrow ↦ inr (
                      subst (λ (r : ReportData F). length r.nodes ≤ max) same
                        (subst (λ k. k ≤ max) (sym (length-decode_rows rows ns good))
                          (length-limit_rows max (sort_with shown_before fresh) (ground arith))))
                ],
                subst (λ (r : ReportData F). All (IsShown r.nodes) r.edges) same
                    (shown_edges-IsShown (shown_nodes ns) (shown_nodes ns) db.edges
                      (shown_self (shown_nodes ns))),
                elim (Option-cases (decode_rows lower_other fresh)) [
                  | inl unread ↦ inl unread
                  | inr (ms, all) ↦ inr (
                    ms,
                    all,
                    sym (ap (λ (r : ReportData F). r.aggregates) same)
                        ∙ report_counts-from_nodes fresh ms all,
                  )
                ],
              )
        ]
