-- ===== src/Crawler/Worker/Expand.antt =====
-- What a worker queues and records for the peers that one peer told of (src/crawler.rs: `worker`).
use bip110_crawler.Common.{
  ℕ, ◌+◌, ◌≤◌, ◌≡◌, ◌≢◌, refl, subst, ap, Bool, true, false, not, ◌&&◌, List, [], ◌∷◌, ◌++◌, length,
  Bool-cases, inl, inr, Text, arith,
}
use bip110_crawler.P2p.Peer.{Peer, is_onion}
use bip110_crawler.Node.{Edge}
use bip110_crawler.Crawler.{Task, CrawlConfig}
use bip110_crawler.Crawler.Worker.{
  peer_eq, has_seen, Expansion, record_edge, enqueue, expand_child, expand_loop, expand,
}
use bip110_crawler.Crawler.Worker.Equality.{peer_eq→eq}

abbrev pub one_if : Bool → ℕ
one_if true = 1
one_if false = 0

-- How often a peer stands among tasks.
abbrev pub occurs : Peer → List Task → ℕ
occurs p [] = 0
occurs p ((q, depth) ∷ ts) = one_if (peer_eq q p) + occurs p ts

pub occurs-append : (p : Peer) (xs ys : List Task) → occurs p (xs ++ ys) ≡ occurs p xs + occurs p ys
occurs-append p [] ys = omega arith
occurs-append p ((q, d) ∷ xs) ys = omega (arith, occurs-append p xs ys)

abbrev pub seen_once : Peer → List Peer → ℕ
seen_once p seen = one_if (has_seen p seen)

abbrev pub new_tasks : Peer → Expansion → ℕ
new_tasks p x = occurs p x.new_clearnet + occurs p x.new_onion

-- To see a peer for the first time raises its count by one, and leaves the others alone.
pub seen_once-new :
    (p child : Peer) (seen : List Peer)
    → has_seen child seen ≡ false
    → seen_once p (child ∷ seen) ≡ one_if (peer_eq child p) + seen_once p seen
unfolding has_seen
seen_once-new p child seen new = elim (Bool-cases (peer_eq child p)) [
  | inl e ↦
      let new' : has_seen p seen ≡ false =
        subst (λ c. has_seen c seen ≡ false) (peer_eq→eq child p e) new in
      rw (e, new') refl
  | inr e ↦ rw e (omega arith)
]

module _ (show : Peer → Text) (cfg : CrawlConfig) (addr : Peer) (depth : ℕ) (p : Peer) where
  enqueue-balance :
      (child : Peer) (x : Expansion)
      → new_tasks p (enqueue depth child x) + seen_once p x.seen
        ≡ new_tasks p x + seen_once p (enqueue depth child x).seen
  unfolding enqueue
  enqueue-balance child x = elim (Bool-cases (has_seen child x.seen)) [
    | inl old ↦ rw (old, enqueue) refl
    | inr new ↦ elim (Bool-cases (is_onion child)) [
      | inl o ↦
          rw (new, o, enqueue)
            (omega (
              arith,
              occurs-append p x.new_onion ((child, depth + 1) ∷ []),
              seen_once-new p child x.seen new,
            ))
      | inr c ↦
          rw (new, c, enqueue)
            (omega (
              arith,
              occurs-append p x.new_clearnet ((child, depth + 1) ∷ []),
              seen_once-new p child x.seen new,
            ))
    ]
  ]

  record_edge-same :
      (child : Peer) (x : Expansion)
      → ((record_edge show cfg addr child x).seen ≡ x.seen)
        × (new_tasks p (record_edge show cfg addr child x) ≡ new_tasks p x)
  unfolding record_edge
  record_edge-same child x = ground arith

  expand_child-balance :
      (child : Peer) (x : Expansion)
      → new_tasks p (expand_child show cfg addr depth child x) + seen_once p x.seen
        ≡ new_tasks p x + seen_once p (expand_child show cfg addr depth child x).seen
  unfolding expand_child
  expand_child-balance child x = elim (Bool-cases (is_onion child && not cfg.tor)) [
    | inl skip ↦ rw (skip, expand_child) refl
    | inr keep ↦
        let y = record_edge show cfg addr child x in
        let (same, tasks) = record_edge-same child x in
        rw (keep, expand_child)
          (omega (arith, enqueue-balance child y, ap (seen_once p) same, tasks))
  ]

  expand_loop-balance :
      (discovered : List Peer) (x : Expansion)
      → new_tasks p (expand_loop show cfg addr depth discovered x) + seen_once p x.seen
        ≡ new_tasks p x + seen_once p (expand_loop show cfg addr depth discovered x).seen
  unfolding expand_loop
  expand_loop-balance [] x = refl
  expand_loop-balance (child ∷ discovered) x = omega (
    arith,
    expand_child-balance child x,
    expand_loop-balance discovered (expand_child show cfg addr depth child x),
  )

-- A peer is queued as often as it becomes seen: once if it is new, and never if it was seen.
pub expand-balance :
    (show : Peer → Text) (cfg : CrawlConfig) (t : Task) (p : Peer) (discovered seen : List Peer)
    (edges : List Edge)
    → new_tasks p (expand show cfg t discovered seen edges) + seen_once p seen
      ≡ seen_once p (expand show cfg t discovered seen edges).seen
unfolding expand
expand-balance show cfg (addr, depth) p discovered seen edges =
    let x : Expansion = record {
      seen = seen;
      edges = edges;
      recorded = 0;
      new_clearnet = [];
      new_onion = [];
    } in
    omega (arith, expand_loop-balance show cfg addr depth p discovered x)

module _ (show : Peer → Text) (cfg : CrawlConfig) (addr : Peer) (depth : ℕ) where
  -- The loop's counter is the number of edges it has added to the `given` ones, and stays in its cap.
  record EdgesOk (given : ℕ) (x : Expansion) : Type 0 where
    added : length x.edges ≡ given + x.recorded
    capped : cfg.edges_per_node ≢ 0 → x.recorded ≤ cfg.edges_per_node

  enqueue-edges :
      (child : Peer) (x : Expansion)
      → ((enqueue depth child x).edges ≡ x.edges) × ((enqueue depth child x).recorded ≡ x.recorded)
  unfolding enqueue
  enqueue-edges child x = ground arith

  record_edge-EdgesOk :
      (given : ℕ) (child : Peer) (x : Expansion)
      → EdgesOk given x
      → EdgesOk given (record_edge show cfg addr child x)
  unfolding record_edge
  record_edge-EdgesOk given child x h = record {
    added = ground arith;
    capped = λ n. ground (arith, h.capped n);
  }

  expand_child-EdgesOk :
      (given : ℕ) (child : Peer) (x : Expansion)
      → EdgesOk given x
      → EdgesOk given (expand_child show cfg addr depth child x)
  unfolding expand_child
  expand_child-EdgesOk given child x h = elim (Bool-cases (is_onion child && not cfg.tor)) [
    | inl skip ↦ rw (skip, expand_child) h
    | inr keep ↦
        let k = record_edge-EdgesOk given child x h in
        let (e, r) = enqueue-edges child (record_edge show cfg addr child x) in
        rw (keep, expand_child)
          (record { added = rw (e, r) k.added; capped = λ n. rw r (k.capped n) })
  ]

  expand_loop-EdgesOk :
      (given : ℕ) (discovered : List Peer) (x : Expansion)
      → EdgesOk given x
      → EdgesOk given (expand_loop show cfg addr depth discovered x)
  unfolding expand_loop
  expand_loop-EdgesOk given [] x h = h
  expand_loop-EdgesOk given (child ∷ discovered) x h =
      expand_loop-EdgesOk given discovered _ (expand_child-EdgesOk given child x h)

-- With a cap on edges, a node adds at most that many.
pub expand-edges_capped :
    (show : Peer → Text) (cfg : CrawlConfig) (t : Task) (discovered seen : List Peer)
    (edges : List Edge)
    → cfg.edges_per_node ≢ 0
    → length (expand show cfg t discovered seen edges).edges ≤ length edges + cfg.edges_per_node
unfolding expand
expand-edges_capped show cfg (addr, depth) discovered seen edges n =
    let x : Expansion = record {
      seen = seen;
      edges = edges;
      recorded = 0;
      new_clearnet = [];
      new_onion = [];
    } in
    let h =
      expand_loop-EdgesOk show cfg addr depth (length edges) discovered x
        (record { added = omega arith; capped = λ m. omega arith }) in
    omega (arith, h.added, h.capped n)
