-- ===== src/Crawler/System/Progress.antt =====
-- No lost wake-up: a crawl never stands still before its end, and ends only when all work is done
-- (src/crawler.rs).
pub mod Standing
use bip110_crawler.Common.{
  append_assoc, ℕ, ◌≤◌, ◌≡◌, ◌≢◌, ◌⊎◌, inl, inr, refl, sym, ◌∙◌, Bool, true, false, not, List, [],
  ◌∷◌, ◌++◌, Option, length, All, Text, arith, Bool-cases,
}
use bip110_crawler.P2p.Peer.{Peer}
use bip110_crawler.Crawler.{Task, CrawlConfig, Frontier, Shared, Reply}
use bip110_crawler.Crawler.Tasks.{Wake, Next, got, finished, wait, next_task, is_finished}
use bip110_crawler.Crawler.Worker.{Probe, Cause, probe_with_retries, at_cap, has_budget}
use bip110_crawler.Crawler.System.{
  Pc, polling, waiting, holding, dialing, expanding, finishing, exited, Worker, System, Act, take,
  leave, sleep, Reach,
}
use Act.{capped, dial, answered, answered_last, unreachable, queue, finish}
use bip110_crawler.Crawler.System.Resting.{busy_pc, busy, Rests, WorkerRests, stack_of}
use bip110_crawler.Crawler.System.Invariant.{Inv, Reach-Inv}
use bip110_crawler.Crawler.System.Pools.{in_pool, pool_count, Reach-pools, Reach-Quiet}
use bip110_crawler.Crawler.System.Start.{CrawlState, Seed, start}
use bip110_crawler.Crawler.System.Start.Begin.{start-Inv, start-Quiet, start-clearnet, start-onion}
use bip110_crawler.Crawler.System.Progress.Standing.{
  Next-cases, Probe-cases, stands, AllStand, stand_idle, resting_stack, both_empty, finished_empty,
  all_exited,
}

module _ (show : Peer → Text) (lower_other : ℕ → Text) (cfg : CrawlConfig) where
  -- An action that is open to a worker.
  pub record Enabled (s : Shared) (op : Bool) (pc : Pc) : Type 0 where
    pub s' : Shared
    pub pc' : Pc
    pub wake : Wake
    pub action : Act show lower_other cfg s op pc s' pc' wake

  enabled :
      {s s' : Shared} {op : Bool} {pc pc' : Pc} {wake : Wake}
      → Act show lower_other cfg s op pc s' pc' wake
      → Enabled s op pc
  enabled {s'} {pc'} {wake} a = record { s' = s'; pc' = pc'; wake = wake; action = a }

  -- A worker that does not stand still can act, whatever its next probe brings.
  can_act :
      (attempt : ℕ → Probe) (now : Text) (s : Shared) (op : Bool) (pc : Pc)
      → stands pc ≡ false
      → Enabled s op pc
  can_act attempt now s op polling e = elim (Next-cases (next_task op s.frontier)) [
    | inl (t, f, q) ↦ enabled (take q)
    | inr (inl q) ↦ enabled (leave q)
    | inr (inr q) ↦ enabled (sleep q)
  ]
  can_act attempt now s op waiting e = absurd (cc)
  can_act attempt now s op (holding t) e = elim (Bool-cases (at_cap cfg (length s.nodes))) [
    | inl q ↦ enabled (capped q)
    | inr q ↦ enabled (dial q)
  ]
  can_act attempt now s op (dialing t) e = elim (Probe-cases (probe_with_retries cfg attempt)) [
    | inl (r, q) ↦ elim (Bool-cases (has_budget cfg t.1)) [
      | inl b ↦ enabled (answered attempt r now q b)
      | inr b ↦ enabled (answered_last attempt r now q b)
    ]
    | inr (c, q) ↦ enabled (unreachable attempt c q)
  ]
  can_act attempt now s op (expanding t discovered) e = enabled (queue refl)
  can_act attempt now s op (finishing nc ns) e = enabled (finish refl)
  can_act attempt now s op exited e = absurd (cc)

  -- A worker that can act, in its place.
  pub record Runs (s : System) : Type 0 where
    pub before : List Worker
    pub worker : Worker
    pub behind : List Worker
    pub place : s.workers ≡ before ++ worker ∷ behind
    pub not_waiting : worker.pc ≢ waiting
    pub open_action : Enabled s.shared worker.onion_pool worker.pc

  -- The crawl is over: every worker has left, no task is queued and none is being worked on.
  pub record Over (s : System) : Type 0 where
    pub left : All (λ w. w.pc ≡ exited) s.workers
    pub no_clearnet : s.shared.frontier.clearnet ≡ []
    pub no_onion : s.shared.frontier.onion ≡ []
    pub none_active : s.shared.frontier.active ≡ 0

  acts_or_stands :
      (attempt : ℕ → Probe) (now : Text) (s : System) (front ws : List Worker)
      → s.workers ≡ front ++ ws
      → Runs s ⊎ AllStand ws
  acts_or_stands attempt now s front [] e = inr tt
  acts_or_stands attempt now s front (w ∷ ws) e = elim (Bool-cases (stands w.pc)) [
    | inr r ↦ inl (record {
      before = front;
      worker = w;
      behind = ws;
      place = e;
      not_waiting = λ q. cc (rw q at r);
      open_action = can_act attempt now s.shared w.onion_pool w.pc r;
    })
    | inl h ↦
        elim (acts_or_stands attempt now s (front ++ w ∷ []) ws
          (e ∙ sym (append_assoc front (w ∷ []) ws))) [ inl r ↦ inl r | inr a ↦ inr (h, a) ]
  ]

  all_left :
      (s : System)
      → Inv s
      → 1 ≤ pool_count false s.workers
      → (1 ≤ pool_count true s.workers) ⊎ (s.shared.frontier.onion ≡ [])
      → AllStand s.workers
      → Over s
  all_left s inv c o h =
      let (ec, eo, ea) = finished_empty f done in
      record {
        left = all_exited f s.workers done h inv.rests;
        no_clearnet = ec;
        no_onion = eo;
        none_active = ea;
      }
    where
      f : Frontier
      f = s.shared.frontier

      onion_empty :
          is_finished f ≡ false → (1 ≤ pool_count true s.workers) ⊎ (f.onion ≡ []) → f.onion ≡ []
      onion_empty u (inl n) = resting_stack f true s.workers u h inv.rests n
      onion_empty u (inr e) = e

      done : is_finished f ≡ true
      done = elim (Bool-cases (is_finished f)) [
        | inl e ↦ e
        | inr u ↦
            both_empty f (resting_stack f false s.workers u h inv.rests c) (onion_empty u o)
              (inv.counted ∙ stand_idle s.workers h)
      ]

  -- In every state that a crawl can reach from its start, under any interleaving, either some worker
  -- that is not waiting has an action open to it, or every worker has left, both stacks are empty
  -- and no task is being worked on.
  pub no_deadlock :
      (attempt : ℕ → Probe) (now : Text) (parse : Text → Option Peer) (saved : Option CrawlState)
      (seeds : List Seed) (threads tor_threads : ℕ) {s : System}
      → Reach show lower_other cfg (start parse cfg.tor saved seeds threads tor_threads) s
      → Runs s ⊎ Over s
  no_deadlock attempt now parse saved seeds threads tor_threads {s} r =
      elim (acts_or_stands attempt now s [] s.workers refl) [
        | inl runs ↦ inl runs
        | inr h ↦ inr (
            all_left s (Reach-Inv (start-Inv parse cfg.tor saved seeds threads tor_threads) r)
              clearnet onion h)
      ]
    where
      clearnet : 1 ≤ pool_count false s.workers
      clearnet =
          omega (
            arith,
            Reach-pools false r,
            start-clearnet parse cfg.tor saved seeds threads tor_threads,
          )

      onion : (1 ≤ pool_count true s.workers) ⊎ (s.shared.frontier.onion ≡ [])
      onion = elim (Bool-cases cfg.tor) [
        | inl on ↦ inl (
            omega (
              arith,
              Reach-pools true r,
              start-onion parse cfg.tor saved seeds threads tor_threads on,
            ))
        | inr off ↦
            inr
              (Reach-Quiet off r
                (start-Quiet parse cfg.tor saved seeds threads tor_threads off)).stack
      ]
