-- ===== src/Crawler/System/Start/Begin.antt =====
-- The state in which the workers are spawned satisfies the invariant, has a worker for every pool
-- that work may arrive for, and no onion work without a proxy (src/crawler.rs).
use bip110_crawler.Common.{
  ℕ, zero, suc, ◌≤◌, ◌≡◌, refl, sym, ◌∙◌, Bool, true, false, not, ◌&&◌, List, [], ◌∷◌, Option, none,
  some, replicate, max, All, All-append, Text, arith, Bool-cases, inl, inr, Option-cases,
}
use bip110_crawler.P2p.Peer.{Peer, is_onion}
use bip110_crawler.Node.{NodeInfo}
use bip110_crawler.Crawler.{Frontier, Shared}
use bip110_crawler.Crawler.Worker.{has_seen}
use bip110_crawler.Crawler.System.{Worker, polling}
use bip110_crawler.Crawler.System.Resting.{busy, WorkerRests}
use bip110_crawler.Crawler.System.Invariant.{Inv}
use bip110_crawler.Crawler.System.Pools.{
  Quiet, pending_onion, pool_count, pools-clearnet, pools-onion,
}
use bip110_crawler.Crawler.System.Start.{
  empty_shared, push_task, CrawlState, restore_nodes, restore_task, restore_frontier, resume, Seed,
  plant, plant_seeds, pools, start,
}

-- No worker is busy, and without a proxy nothing is on the onion stack.
abbrev Still : Bool → Shared → Type 0
Still tor s = (s.frontier.active ≡ 0) × (tor ≡ false → s.frontier.onion ≡ [])

push_task-Still :
    (tor : Bool) (p : Peer) (depth : ℕ) (f : Frontier)
    → (is_onion p && not tor) ≡ false
    → f.active ≡ 0
    → (tor ≡ false → f.onion ≡ [])
    → ((push_task (p, depth) f).active ≡ 0) × (tor ≡ false → (push_task (p, depth) f).onion ≡ [])
unfolding push_task
push_task-Still true p depth f e a o = ground arith
push_task-Still false p depth f e a o = ground (arith, o refl)

restore_task-Still :
    (tor : Bool) (p : Peer) (depth : ℕ) (s : Shared)
    → Still tor s
    → Still tor (restore_task tor p depth s)
unfolding restore_task
restore_task-Still tor p depth s (a, o) = elim (Bool-cases (is_onion p && not tor)) [
  | inl skip ↦ rw (skip, restore_task) (a, o)
  | inr keep ↦ rw (keep, restore_task) (push_task-Still tor p depth s.frontier keep a o)
]

restore_nodes-Still :
    (parse : Text → Option Peer) (tor : Bool) (nodes : List NodeInfo) (s : Shared)
    → Still tor s
    → Still tor (restore_nodes parse nodes s)
unfolding restore_nodes
restore_nodes-Still parse tor [] s h = h
restore_nodes-Still parse tor (n ∷ nodes) s h = elim (Option-cases (parse n.addr)) [
  | inl e ↦ rw (e, restore_nodes) (restore_nodes-Still parse tor nodes s h)
  | inr (p, e) ↦ rw (e, restore_nodes) (restore_nodes-Still parse tor nodes _ h)
]

restore_frontier-Still :
    (parse : Text → Option Peer) (tor : Bool) (tasks : List (Text × ℕ)) (s : Shared)
    → Still tor s
    → Still tor (restore_frontier parse tor tasks s)
unfolding restore_frontier
restore_frontier-Still parse tor [] s h = h
restore_frontier-Still parse tor ((text, depth) ∷ tasks) s h = elim (Option-cases (parse text)) [
  | inl e ↦ rw (e, restore_frontier) (restore_frontier-Still parse tor tasks s h)
  | inr (p, e) ↦
      rw (e, restore_frontier)
        (restore_frontier-Still parse tor tasks _ (restore_task-Still tor p depth s h))
]

resume-Still :
    (parse : Text → Option Peer) (tor : Bool) (saved : Option CrawlState) (s : Shared)
    → Still tor s
    → Still tor (resume parse tor saved s)
unfolding resume
resume-Still parse tor none s h = h
resume-Still parse tor (some st) s h =
    restore_frontier-Still parse tor st.frontier _ (restore_nodes-Still parse tor st.nodes s h)

plant-Still :
    (tor : Bool) (p : Peer) (depth : ℕ) (pre : Option NodeInfo) (s : Shared)
    → Still tor s
    → Still tor (plant tor p depth pre s)
unfolding plant
plant-Still tor p depth pre s (a, o) = elim (Bool-cases (is_onion p && not tor)) [
  | inl skip ↦ rw (skip, plant) (a, o)
  | inr keep ↦ elim (Bool-cases (has_seen p s.seen)) [
    | inl old ↦ rw (keep, old, plant) (a, o)
    | inr new ↦ rw (keep, new, plant) (push_task-Still tor p depth s.frontier keep a o)
  ]
]

plant_seeds-Still :
    (tor : Bool) (seeds : List Seed) (s : Shared)
    → Still tor s
    → Still tor (plant_seeds tor seeds s)
unfolding plant_seeds
plant_seeds-Still tor [] s h = h
plant_seeds-Still tor ((p, depth, pre) ∷ seeds) s h =
    plant_seeds-Still tor seeds _ (plant-Still tor p depth pre s h)

-- All workers of a list are about to poll.
abbrev pub Polls : List Worker → Type 0
Polls = All (λ w. w.pc ≡ polling)

replicate-Polls :
    (n : ℕ) (op : Bool) → Polls (replicate n (record { onion_pool = op; pc = polling }))
replicate-Polls zero op = tt
replicate-Polls (suc n) op = (refl, replicate-Polls n op)

pools-Polls : (tor : Bool) (threads tor_threads : ℕ) → Polls (pools tor threads tor_threads)
unfolding pools
pools-Polls true threads tor_threads =
    All-append _ (replicate (max threads 1) _) _ (replicate-Polls (max threads 1) false)
      (replicate-Polls (max tor_threads 1) true)
pools-Polls false threads tor_threads =
    All-append _ (replicate (max threads 1) _) _ (replicate-Polls (max threads 1) false) tt

Polls-busy : (ws : List Worker) → Polls ws → busy ws ≡ 0
Polls-busy [] h = refl
Polls-busy (w ∷ ws) h = rw h.0 (omega (arith, Polls-busy ws h.1))

Polls-rests : (f : Frontier) (ws : List Worker) → Polls ws → All (WorkerRests f) ws
Polls-rests f [] h = tt
Polls-rests f (w ∷ ws) h = (rw h.0 tt, Polls-rests f ws h.1)

Polls-pending : (ws : List Worker) → Polls ws → All (λ w. pending_onion w.pc ≡ []) ws
Polls-pending [] h = tt
Polls-pending (w ∷ ws) h = (rw h.0 refl, Polls-pending ws h.1)

module _ (parse : Text → Option Peer) (tor : Bool) (saved : Option CrawlState) (seeds : List Seed)
    (threads tor_threads : ℕ) where
  start-Still : Still tor (start parse tor saved seeds threads tor_threads).shared
  unfolding start
  start-Still =
      plant_seeds-Still tor seeds _ (resume-Still parse tor saved empty_shared (refl, λ _. refl))

  pub start-Polls : Polls (start parse tor saved seeds threads tor_threads).workers
  unfolding start
  start-Polls = pools-Polls tor threads tor_threads

  pub start-Inv : Inv (start parse tor saved seeds threads tor_threads)
  start-Inv = record {
    counted = start-Still.0 ∙ sym (Polls-busy _ start-Polls);
    rests = Polls-rests _ _ start-Polls;
  }

  pub start-Quiet : tor ≡ false → Quiet (start parse tor saved seeds threads tor_threads)
  start-Quiet off = record { stack = start-Still.1 off; pending = Polls-pending _ start-Polls }

  pub start-clearnet :
      1 ≤ pool_count false (start parse tor saved seeds threads tor_threads).workers
  unfolding start
  start-clearnet = pools-clearnet tor threads tor_threads

  pub start-onion :
      tor ≡ true → 1 ≤ pool_count true (start parse tor saved seeds threads tor_threads).workers
  unfolding start
  start-onion on = rw on (pools-onion threads tor_threads)
