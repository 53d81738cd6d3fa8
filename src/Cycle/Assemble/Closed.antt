-- ===== src/Cycle/Assemble/Closed.antt =====
-- Reports in which every edge is between two of its nodes (src/main.rs).
use bip110_crawler.Common.{
  ℕ, ◌≤◌, ◌<◌, ◌≡◌, ◌≢◌, refl, sym, ap, subst, ◌∙◌, inl, inr, Bool, true, not, List, [], ◌∷◌, ◌++◌,
  Option, none, some, length, length-take, take, All, All-take, All-append, filter, Bool-cases,
  list_eq, leb, leb→le, ◌==◌, ==_iff, arith,
}
use bip110_crawler.Node.{NodeInfo, Edge}
use bip110_crawler.Db.Report.Shown.{IsShown}
use bip110_crawler.Cycle.Assemble.{placeholder, splice_own, reachable_only, cap_report}
use bip110_crawler.Cycle.Assemble.Capped.{
  is_online, is_offline, All-filter, inside-IsShown, cap_report-Capped,
}

-- No placeholder of our own node.
abbrev pub IsNode : NodeInfo → Type 0
IsNode n = not (list_eq n.addr placeholder) ≡ true

module _ (P : NodeInfo → Type 0) where
  All-kept : (p : NodeInfo → Bool) (xs : List NodeInfo) → All P xs → All P (filter p xs)
  unfolding filter
  All-kept p [] a = tt
  All-kept p (x ∷ xs) a = elim (Bool-cases (p x)) [
    | inl y ↦ rw y (a.0, All-kept p xs a.1)
    | inr n ↦ rw n (All-kept p xs a.1)
  ]

All-both :
    (P Q : NodeInfo → Type 0) (xs : List NodeInfo) → All P xs → All Q xs → All (λ x. P x × Q x) xs
All-both P Q [] a b = tt
All-both P Q (x ∷ xs) a b = ((a.0, b.0), All-both P Q xs a.1 b.1)

pub filter-same :
    (p : NodeInfo → Bool) (xs : List NodeInfo) → All (λ n. p n ≡ true) xs → filter p xs ≡ xs
unfolding filter
filter-same p [] a = refl
filter-same p (x ∷ xs) a = rw a.0 (ap (λ r. x ∷ r) (filter-same p xs a.1))

pub All-weaken : (xs : List NodeInfo) → All (λ n. (n.online ≡ true) × IsNode n) xs → All IsNode xs
All-weaken [] a = tt
All-weaken (x ∷ xs) a = (a.0.1, All-weaken xs a.1)

pub All-online :
    (xs : List NodeInfo)
    → All (λ n. (n.online ≡ true) × IsNode n) xs
    → All (λ n. n.online ≡ true) xs
All-online [] a = tt
All-online (x ∷ xs) a = (a.0.0, All-online xs a.1)

-- A list of nodes with the edges between them.
abbrev pub Closed : (NodeInfo → Type 0) → List NodeInfo × List Edge → Type 0
Closed P (nodes, edges) = All P nodes × All (IsShown nodes) edges

pub cap_report-Closed :
    (P : NodeInfo → Type 0) (max : ℕ) (nodes : List NodeInfo) (edges : List Edge)
    → Closed P (nodes, edges)
    → Closed P (cap_report max (nodes, edges))
      × (max ≢ 0 → length (cap_report max (nodes, edges)).0 ≤ max)
cap_report-Closed P max nodes edges closed = elim (Bool-cases (max == 0)) [
  | inl unlimited ↦
      let zero : max ≡ 0 = (==_iff max 0).0 unlimited in
      let same : cap_report max (nodes, edges) ≡ (nodes, edges) =
        ap (λ m. cap_report m (nodes, edges)) zero ∙ (cap_report-Capped 0 nodes edges).1 in
      (subst (Closed P) (sym same) closed, λ h. absurd (h zero))
  | inr limited ↦ elim (Bool-cases (leb (length nodes) max)) [
    | inl fits ↦
        let within : length nodes ≤ max = leb→le (length nodes) max fits in
        let same = (cap_report-Capped max nodes edges).2 within in
        (
          subst (Closed P) (sym same) closed,
          λ h. omega (arith, within, ap (λ (g : List NodeInfo × List Edge). length g.0) same),
        )
    | inr beyond ↦
        let sorted = filter is_online nodes ++ filter is_offline nodes in
        let over : max < length nodes = ground arith in
        let same = ((cap_report-Capped max nodes edges).0 (λ z. ground arith) over).0 in
        let holds =
          All-append P (filter is_online nodes) (filter is_offline nodes)
            (All-kept P is_online nodes closed.0) (All-kept P is_offline nodes closed.0) in
        (
          subst (Closed P) (sym same)
              (All-take P max sorted holds, inside-IsShown (take max sorted) edges),
          λ h. omega (
            arith,
            ap (λ (g : List NodeInfo × List Edge). length g.0) same,
            length-take max sorted,
          ),
        )
  ]
]

pub splice_own-IsNode :
    (own_info : Option NodeInfo) (own_edges : List Edge) (graph : List NodeInfo × List Edge)
    → ((own : NodeInfo) → own_info ≡ some own → IsNode own)
    → All IsNode (splice_own own_info own_edges graph).0
unfolding splice_own
splice_own-IsNode none own_edges (nodes, edges) h = All-filter _ IsNode (λ n e. e) nodes
splice_own-IsNode (some own) own_edges (nodes, edges) h =
    All-append IsNode (filter (λ (n : NodeInfo). not (list_eq n.addr placeholder)) nodes) (own ∷ [])
      (All-filter _ IsNode (λ n e. e) nodes) (h own refl, tt)

-- What a report shows of a node: it is reachable, and not the placeholder.
abbrev pub IsReported : NodeInfo → Type 0
IsReported n = (n.online ≡ true) × IsNode n

pub reachable_only-Closed :
    (graph : List NodeInfo × List Edge)
    → All IsNode graph.0
    → Closed IsReported (reachable_only graph)
unfolding reachable_only
reachable_only-Closed (nodes, edges) a =
    let kept = filter (λ (n : NodeInfo). n.online) nodes in
    (
      All-both (λ n. n.online ≡ true) IsNode kept
          (All-filter _ (λ n. n.online ≡ true) (λ n e. e) nodes)
          (All-kept IsNode (λ (n : NodeInfo). n.online) nodes a),
      inside-IsShown kept edges,
    )
