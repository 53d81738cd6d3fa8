-- ===== src/Crawler/System/Start/Planted.antt =====
-- What planting the seeds leaves on the stacks (src/crawler.rs: `crawl`).
use bip110_crawler.Common.{
  ℕ, ◌≡◌, refl, Bool, true, not, ◌&&◌, ◌||◌, List, [], ◌∷◌, Option, none, map, All, All-imp, Text,
  Bool-cases, inl, inr, arith, subst,
}
use bip110_crawler.P2p.Peer.{Peer, is_onion}
use bip110_crawler.Node.{NodeInfo}
use bip110_crawler.Crawler.{Task, Frontier, Shared}
use bip110_crawler.Crawler.Worker.{peer_eq, has_seen}
use bip110_crawler.Crawler.Worker.Equality.{peer_eq→eq, peer_eq_refl}
use bip110_crawler.Crawler.System.Resting.{stack_of}
use bip110_crawler.Crawler.System.Start.{
  empty_shared, push_task, resume, Seed, plant, plant_seeds, start,
}

-- A task for the peer is on the stack of its own pool.
abbrev pub is_queued : Peer → Frontier → Bool
is_queued p f = has_seen p (map (λ (t : Task). t.0) (stack_of (is_onion p) f))

-- An onion peer needs the proxy.
abbrev pub needs_proxy : Bool → Peer → Bool
needs_proxy tor p = is_onion p && not tor

push_task-queued :
    (p : Peer) (depth : ℕ) (f : Frontier) → is_queued p (push_task (p, depth) f) ≡ true
unfolding push_task has_seen
push_task-queued p depth f = ground (arith, peer_eq_refl p)

push_task-keeps :
    (q p : Peer) (depth : ℕ) (f : Frontier)
    → is_queued q f ≡ true
    → is_queued q (push_task (p, depth) f) ≡ true
unfolding push_task has_seen
push_task-keeps q p depth f h = ground arith

-- All that is seen is queued.
abbrev Queued : Shared → Type 0
Queued s = (q : Peer) → has_seen q s.seen ≡ true → is_queued q s.frontier ≡ true

-- A task that is pushed for a peer is the peer's mark as seen.
see-Queued :
    (p : Peer) (depth : ℕ) (seen : List Peer) (f : Frontier)
    → ((q : Peer) → has_seen q seen ≡ true → is_queued q f ≡ true)
    → (q : Peer) → has_seen q (p ∷ seen) ≡ true
    → is_queued q (push_task (p, depth) f) ≡ true
unfolding has_seen
see-Queued p depth seen f h q e = elim (Bool-cases (peer_eq p q)) [
  | inl same ↦
      subst (λ r. is_queued r (push_task (p, depth) f) ≡ true) (peer_eq→eq p q same)
        (push_task-queued p depth f)
  | inr apart ↦ push_task-keeps q p depth f (h q (ground arith))
]

module _ (tor : Bool) (p : Peer) (depth : ℕ) (pre : Option NodeInfo) (s : Shared) where
  plant-Queued : Queued s → Queued (plant tor p depth pre s)
  unfolding plant
  plant-Queued h = elim (Bool-cases (is_onion p && not tor)) [
    | inl skip ↦ rw (skip, plant) h
    | inr keep ↦ elim (Bool-cases (has_seen p s.seen)) [
      | inl old ↦ rw (keep, old, plant) h
      | inr new ↦ rw (keep, new, plant) (see-Queued p depth s.seen s.frontier h)
    ]
  ]

  plant-sees : (needs_proxy tor p || has_seen p (plant tor p depth pre s).seen) ≡ true
  unfolding plant has_seen
  plant-sees = ground (arith, peer_eq_refl p)

  plant-keeps :
      (q : Peer) → has_seen q s.seen ≡ true → has_seen q (plant tor p depth pre s).seen ≡ true
  unfolding plant has_seen
  plant-keeps q h = ground arith

plant_seeds-keeps :
    (tor : Bool) (seeds : List Seed) (s : Shared) (q : Peer)
    → has_seen q s.seen ≡ true
    → has_seen q (plant_seeds tor seeds s).seen ≡ true
unfolding plant_seeds
plant_seeds-keeps tor [] s q h = h
plant_seeds-keeps tor ((p, depth, pre) ∷ seeds) s q h =
    plant_seeds-keeps tor seeds _ q (plant-keeps tor p depth pre s q h)

plant_seeds-Queued :
    (tor : Bool) (seeds : List Seed) (s : Shared) → Queued s → Queued (plant_seeds tor seeds s)
unfolding plant_seeds
plant_seeds-Queued tor [] s h = h
plant_seeds-Queued tor ((p, depth, pre) ∷ seeds) s h =
    plant_seeds-Queued tor seeds _ (plant-Queued tor p depth pre s h)

plant_seeds-sees :
    (tor : Bool) (seeds : List Seed) (s : Shared)
    → All (λ d. (needs_proxy tor d.0 || has_seen d.0 (plant_seeds tor seeds s).seen) ≡ true) seeds
unfolding plant_seeds
plant_seeds-sees tor [] s = tt
plant_seeds-sees tor ((p, depth, pre) ∷ seeds) s =
    let s' = plant tor p depth pre s in
    let seen : (needs_proxy tor p || has_seen p s'.seen) ≡ true = plant-sees tor p depth pre s in
    (
      elim (Bool-cases (needs_proxy tor p)) [
        | inl skip ↦ ground arith
        | inr keep ↦ let e = plant_seeds-keeps tor seeds s' p (ground arith) in ground arith
      ],
      plant_seeds-sees tor seeds s',
    )

-- Of a fresh crawl, every seed is queued, an onion seed without the proxy aside.
abbrev pub Starts : Bool → Frontier → Peer → Type 0
Starts tor f p = (needs_proxy tor p || is_queued p f) ≡ true

none-Queued : Queued empty_shared
unfolding has_seen
none-Queued q e = absurd (cc e)

pub start-Starts :
    (parse : Text → Option Peer) (tor : Bool) (seeds : List Seed) (threads tor_threads : ℕ)
    → All
        (λ (d : Seed).
          Starts tor (start parse tor none seeds threads tor_threads).shared.frontier d.0)
        seeds
unfolding start resume
start-Starts parse tor seeds threads tor_threads =
    let queued = plant_seeds-Queued tor seeds empty_shared none-Queued in
    All-imp
      (λ (d : Seed).
        (needs_proxy tor d.0 || has_seen d.0 (plant_seeds tor seeds empty_shared).seen) ≡ true)
      (λ (d : Seed). Starts tor (plant_seeds tor seeds empty_shared).frontier d.0) seeds
      (λ d h. elim (Bool-cases (needs_proxy tor d.0)) [
        | inl skip ↦ rw skip refl
        | inr keep ↦ let e = queued d.0 (ground arith) in ground arith
      ])
      (plant_seeds-sees tor seeds empty_shared)
