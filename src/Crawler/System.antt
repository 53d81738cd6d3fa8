-- ===== src/Crawler/System.antt =====
-- All workers of a crawl, interleaved (src/crawler.rs: `worker`, `next_task`, `finish_task`).
-- A step is what one worker does under one lock, or one probe; a worker that waits on its pool's
-- condition variable moves on when it is notified, or spuriously.
pub mod Start
pub mod Resting
pub mod Invariant
pub mod Pools
pub mod Progress
pub mod Once
pub mod Cap
pub mod Save
pub mod Ends
use bip110_crawler.Common.{
  ℕ, ◌≡◌, Bool, true, false, List, [], ◌∷◌, ◌++◌, map, if◌then◌else◌, length, Text,
}
use bip110_crawler.P2p.Peer.{Peer}
use bip110_crawler.Crawler.{Task, CrawlConfig, Frontier, Shared, Reply}
use bip110_crawler.Crawler.Tasks.{
  Wake, wake_all, wake_none, Next, got, finished, wait, next_task, finish_task,
}
use bip110_crawler.Crawler.Worker.{
  Cause, Probe, probe_with_retries, insert_node, or_insert_node, at_cap, has_budget, Expansion,
  expand, unreachable_node, reached_node,
}

-- Where a worker stands, with the variables that are live there.
pub data Pc : Type 0 where
  polling : Pc  -- before a round of the loop in `next_task`
  waiting : Pc  -- in `wait` on its pool's condition variable
  holding : Task → Pc  -- before the check of the node cap
  dialing : Task → Pc  -- before the probe
  expanding : Task → List Peer → Pc  -- before the loop over the discovered peers
  finishing : List Task → List Task → Pc  -- before `finish_task`
  exited : Pc

pub record Worker : Type 0 where
  pub onion_pool : Bool
  pub pc : Pc

pub record System : Type 0 where
  pub shared : Shared
  pub workers : List Worker

-- A worker that waits on a notified condition variable tries again.
abbrev pub woken : Bool → Pc → Pc
woken notified waiting = if notified then polling else waiting
woken notified pc = pc

abbrev pub wake_worker : Wake → Worker → Worker
wake_worker wake w = record w {
  pc = woken (if w.onion_pool then wake.onion else wake.clearnet) w.pc;
}

abbrev pub notify : Wake → List Worker → List Worker
notify wake = map (wake_worker wake)

module _ (show : Peer → Text) (lower_other : ℕ → Text) (cfg : CrawlConfig) where
  -- One action of a worker of the given pool: the shared state, the worker and the notifications
  -- that it leaves.
  pub data Act (s : Shared) (onion_pool : Bool) : Pc → Shared → Pc → Wake → Type 0 where
    take :
        {t : Task} {f : Frontier}
        → next_task onion_pool s.frontier ≡ got t f
        → Act s onion_pool polling (record s { frontier = f }) (holding t) wake_none
    leave : next_task onion_pool s.frontier ≡ finished → Act s onion_pool polling s exited wake_all
    sleep : next_task onion_pool s.frontier ≡ wait → Act s onion_pool polling s waiting wake_none
    spurious : Act s onion_pool waiting s polling wake_none
    capped :
        {t : Task}
        → at_cap cfg (length s.nodes) ≡ true
        → Act s onion_pool (holding t) s (finishing [] []) wake_none
    dial :
        {t : Task}
        → at_cap cfg (length s.nodes) ≡ false
        → Act s onion_pool (holding t) s (dialing t) wake_none
    answered :
        {t : Task} (attempt : ℕ → Probe) (r : Reply) (now : Text)
        → probe_with_retries cfg attempt ≡ Probe.reached r
        → has_budget cfg t.1 ≡ true
        → Act s onion_pool
            (dialing t)
            (record s {
              nodes = insert_node t.0 (reached_node show lower_other cfg now t r) s.nodes;
            })
            (expanding t r.discovered)
            wake_none
    answered_last :
        {t : Task} (attempt : ℕ → Probe) (r : Reply) (now : Text)
        → probe_with_retries cfg attempt ≡ Probe.reached r
        → has_budget cfg t.1 ≡ false
        → Act s onion_pool
            (dialing t)
            (record s {
              nodes = insert_node t.0 (reached_node show lower_other cfg now t r) s.nodes;
            })
            (finishing [] [])
            wake_none
    unreachable :
        {t : Task} (attempt : ℕ → Probe) (chain : List Cause)
        → probe_with_retries cfg attempt ≡ Probe.failed chain
        → Act s onion_pool
            (dialing t)
            (record s { nodes = or_insert_node t.0 (unreachable_node show t) s.nodes })
            (finishing [] [])
            wake_none
    queue :
        {t : Task} {discovered : List Peer} {x : Expansion}
        → expand show cfg t discovered s.seen s.edges ≡ x
        → Act s onion_pool
            (expanding t discovered)
            (record s { seen = x.seen; edges = x.edges })
            (finishing x.new_clearnet x.new_onion)
            wake_none
    finish :
        {new_clearnet new_onion : List Task} {f : Frontier} {wake : Wake}
        → finish_task s.frontier new_clearnet new_onion ≡ (f, wake)
        → Act s onion_pool
            (finishing new_clearnet new_onion)
            (record s { frontier = f })
            polling
            wake

  pub data Step (s : System) : System → Type 0 where
    act :
        (before : List Worker) (w : Worker) (after : List Worker) {s' : Shared} {pc' : Pc}
        {wake : Wake}
        → s.workers ≡ before ++ w ∷ after
        → Act s.shared w.onion_pool w.pc s' pc' wake
        → Step s (record {
          shared = s';
          workers = notify wake before ++ record w { pc = pc' } ∷ notify wake after;
        })

  pub data Reach (s : System) : System → Type 0 where
    here : Reach s s
    next : {t u : System} → Reach s t → Step t u → Reach s u
