-- ===== src/Db/Snapshot/Census.antt =====
-- The hourly point counts the reachable nodes (record_history) (src/db.rs).
use bip110_crawler.Common.{
  ℕ, ◌+◌, ◌≤◌, ◌≡◌, refl, inl, inr, Bool, ◌&&◌, List, [], ◌∷◌, length, take, count, Text, store,
  filter, sort_with, Bool-cases, arith, length-take,
}
use bip110_crawler.Db.Nodes.{NodeRecord}
use bip110_crawler.Db.Snapshot.{
  Group, history_top_versions, add_to_group, sum_counts, group_by, is_recent, is_onion_row,
  by_count, collect_versions, version_key, history_point,
}

sum_counts-add_to_group :
    (im ver : Text) (groups : List Group)
    → sum_counts (add_to_group im ver groups) ≡ 1 + sum_counts groups
unfolding sum_counts add_to_group
sum_counts-add_to_group im ver [] = refl
sum_counts-add_to_group im ver (g ∷ groups) = ground (arith, sum_counts-add_to_group im ver groups)

length-store :
    {V : Type 0} (key : Text) (v : V) (m : List (Text × V)) → length (store key v m) ≤ length m + 1
unfolding store
length-store key v [] = omega arith
length-store key v ((k, w) ∷ m) = ground (arith, length-store key v m)

length-collect_versions :
    (groups : List Group) (m : List (Text × ℕ))
    → length (collect_versions groups m) ≤ length groups + length m
unfolding collect_versions
length-collect_versions [] m = omega arith
length-collect_versions (g ∷ groups) m =
    let key = version_key g.implementation g.version in
    omega (arith, length-store key g.count m, length-collect_versions groups (store key g.count m))

module _ {F : Type 0} where
  count-group_by :
      (p : NodeRecord F → Bool) (rows : List (NodeRecord F))
      → sum_counts (group_by (filter p rows)) ≡ count p rows
  unfolding filter group_by count
  count-group_by p [] = unfold sum_counts in refl
  count-group_by p (r ∷ rows) = elim (Bool-cases (p r)) [
    | inl y ↦ rw y (
        omega (
          arith,
          sum_counts-add_to_group r.implementation r.version (group_by (filter p rows)),
          count-group_by p rows,
        ))
    | inr n ↦ rw n (omega (arith, count-group_by p rows))
  ]

  count_and :
      (p q : NodeRecord F → Bool) (rows : List (NodeRecord F))
      → count (λ r. p r && q r) rows ≤ count p rows
  unfolding count
  count_and p q [] = omega arith
  count_and p q (r ∷ rows) = ground (arith, count_and p q rows)

  -- The total of the hour's point is the number of nodes that are online and confirmed since the
  -- cutoff, the Tor nodes are no more than that, and at most twelve versions are listed.
  pub history_point-total :
      (cutoff : Text) (rows : List (NodeRecord F))
      → let p = history_point cutoff rows in
        (p.total ≡ count (is_recent cutoff) rows) × (p.onion ≤ p.total) × (length p.versions ≤ 12)
  unfolding history_point
  history_point-total cutoff rows =
      let total = count-group_by (is_recent cutoff) rows in
      let groups = sort_with by_count (group_by (filter (is_recent cutoff) rows)) in
      (
        total,
        rw total (count_and (is_recent cutoff) is_onion_row rows),
        omega (
          arith,
          length-collect_versions (take history_top_versions groups) [],
          length-take history_top_versions groups,
        ),
      )
