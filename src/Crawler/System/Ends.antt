-- ===== src/Crawler/System/Ends.antt =====
-- The end of a crawl: a measure that every step of a run lowers, a spurious wake-up aside (src/crawler.rs).
pub mod Told
pub mod Measure
pub mod Costs
use bip110_crawler.Common.{
  ℕ, suc, ◌+◌, ◌*◌, ◌≤◌, ◌≡◌, sym, refl, ap, subst, Bool, true, false, ◌||◌, List, [], ◌∷◌, ◌++◌,
  Option, none, All, All-append, All-split, length, length-map, length-append, if◌then◌else◌, Text,
  arith, Bool-cases, inl, inr,
}
use mathlib.Core.List.{reverse}
use bip110_crawler.P2p.Peer.{Peer}
use bip110_crawler.Crawler.{Task, CrawlConfig, Frontier, Shared, Reply}
use bip110_crawler.Crawler.Worker.{has_seen, Expansion}
use bip110_crawler.Crawler.Tasks.{Wake, got, next_task, finish_task}
use bip110_crawler.Crawler.System.{
  Pc, polling, waiting, holding, dialing, expanding, finishing, exited, Worker, System, woken,
  notify, Act, take, leave, sleep, act, Reach, here, next,
}
use Act.{spurious, capped, dial, answered, answered_last, unreachable, queue, finish}
use bip110_crawler.Crawler.System.Start.{CrawlState, Seed, start}
use bip110_crawler.Crawler.System.Start.Begin.{Polls, start-Polls}
use bip110_crawler.Crawler.System.Ends.Costs.{
  cost, costs, costs-append, gain, gain_bounds, gain-add, costs-notify, length-notify,
}
use bip110_crawler.Crawler.System.Ends.Measure.{
  IsTold, load, load-append, load-reverse, unseen, expand-unseen, stacks, took-load, finished-load,
}
use bip110_crawler.Crawler.System.Ends.Told.{
  Fits, AllFit, AllFit-notify, load-times, unseen_bounds, Polls-costs, Polls-AllFit,
}

-- What is left to do, for `n` workers and a universe of peers.
abbrev measure : ℕ → List Peer → System → ℕ
measure n us s =
    stacks (n + 5) s.shared.frontier + unseen (n + 5) us s.shared.seen + costs n s.workers

module _ {show : Peer → Text} {lower_other : ℕ → Text} {cfg : CrawlConfig} where
  abbrev pub spurious_by :
      {s s' : Shared} {op : Bool} {pc pc' : Pc} {wake : Wake}
      → Act show lower_other cfg s op pc s' pc' wake
      → ℕ
  spurious_by spurious = 1
  spurious_by _ = 0

  abbrev pub told_by :
      {s s' : Shared} {op : Bool} {pc pc' : Pc} {wake : Wake}
      → Act show lower_other cfg s op pc s' pc' wake
      → List Peer
  told_by (answered attempt r now e b) = r.discovered
  told_by _ = []

  -- The steps of a run, those of them that are spurious wake-ups, and the peers that it is told of.
  abbrev pub steps : {s t : System} → Reach show lower_other cfg s t → ℕ
  steps here = 0
  steps (next r a) = steps r + 1

  abbrev pub spurious_wakes : {s t : System} → Reach show lower_other cfg s t → ℕ
  spurious_wakes here = 0
  spurious_wakes (next r (act _ _ _ _ a)) = spurious_wakes r + spurious_by a

  abbrev pub told : {s t : System} → Reach show lower_other cfg s t → List Peer
  told here = []
  told (next r (act _ _ _ _ a)) = told_by a ++ told r

  -- An action pays for itself, and for the polls of the workers that it wakes.
  Act-pays :
      (n : ℕ) (us : List Peer) {s s' : Shared} {op : Bool} {pc pc' : Pc} {wake : Wake}
      → (a : Act show lower_other cfg s op pc s' pc' wake) → Fits us pc
      → stacks (n + 5) s'.frontier + unseen (n + 5) us s'.seen + cost n pc' + gain wake n + 1
        ≤ stacks (n + 5) s.frontier + unseen (n + 5) us s.seen + cost n pc + 2 * spurious_by a
  Act-pays n us {s} {op = op} (take {t} {f} e) h =
      omega (arith, took-load (n + 5) op s.frontier f t e)
  Act-pays n us {s} (queue {t} {discovered} {x} e) h =
      let p : load (n + 5) x.new_clearnet + load (n + 5) x.new_onion + unseen (n + 5) us x.seen
          ≤ unseen (n + 5) us s.seen =
        subst
          (λ (y : Expansion).
            load (n + 5) y.new_clearnet + load (n + 5) y.new_onion + unseen (n + 5) us y.seen
            ≤ unseen (n + 5) us s.seen)
          e (expand-unseen show cfg (n + 5) us t discovered s.seen s.edges h) in
      omega arith
  Act-pays n us {s} {wake = wake} (finish {new_clearnet} {new_onion} {f} e) h =
      let p : stacks (n + 5) f
          ≡ stacks (n + 5) s.frontier + (load (n + 5) new_clearnet + load (n + 5) new_onion) =
        subst
          (λ (r : Frontier × Wake).
            stacks (n + 5) r.0
            ≡ stacks (n + 5) s.frontier + (load (n + 5) new_clearnet + load (n + 5) new_onion))
          e (finished-load (n + 5) s.frontier new_clearnet new_onion) in
      omega (arith, gain_bounds wake n)
  Act-pays n us _ h = omega arith

  Act-Fits :
      (us : List Peer) {s s' : Shared} {op : Bool} {pc pc' : Pc} {wake : Wake}
      → (a : Act show lower_other cfg s op pc s' pc' wake) → All (IsTold us) (told_by a)
      → Fits us pc'
  Act-Fits us (answered attempt r now e b) h = h
  Act-Fits us (take e) h = tt
  Act-Fits us (leave e) h = tt
  Act-Fits us (sleep e) h = tt
  Act-Fits us spurious h = tt
  Act-Fits us (capped e) h = tt
  Act-Fits us (dial e) h = tt
  Act-Fits us (answered_last attempt r now e b) h = tt
  Act-Fits us (unreachable attempt chain e) h = tt
  Act-Fits us (queue e) h = tt
  Act-Fits us (finish e) h = tt

  record Pays (n : ℕ) (us : List Peer) {s t : System} (r : Reach show lower_other cfg s t)
      : Type 0 where
    same : length t.workers ≡ n
    fit : AllFit us t.workers
    paid : steps r + measure n us t ≤ measure n us s + 2 * spurious_wakes r

  Reach-Pays :
      (n : ℕ) (us : List Peer) {s t : System} (r : Reach show lower_other cfg s t)
      → length s.workers ≡ n
      → AllFit us s.workers
      → All (IsTold us) (told r)
      → Pays n us r
  Reach-Pays n us here l f h = record { same = l; fit = f; paid = omega arith }
  Reach-Pays n us (next {t = u} r (act before w behind {pc'} {wake} e a)) l f h =
      let (now, earlier) = All-split (IsTold us) (told_by a) (told r) h in
      let ih = Reach-Pays n us r l f earlier in
      let (fb, fw) =
        All-split (λ w. Fits us w.pc) before (w ∷ behind) (subst (AllFit us) e ih.fit) in
      let size : length before + suc (length behind) ≡ n =
        omega (arith, ap length e, length-append before (w ∷ behind), ih.same) in
      let w' : Worker = record w { pc = pc' } in
      record {
        same = omega (
          arith,
          size,
          length-append (notify wake before) (w' ∷ notify wake behind),
          length-notify wake before,
          length-notify wake behind,
        );
        fit =
            All-append (λ w. Fits us w.pc) (notify wake before) (w' ∷ notify wake behind)
              (AllFit-notify us wake before fb)
              (Act-Fits us a now, AllFit-notify us wake behind fw.1);
        paid = omega (
          arith,
          ih.paid,
          Act-pays n us a fw.0,
          ap (costs n) e,
          costs-append n before (w ∷ behind),
          costs-append n (notify wake before) (w' ∷ notify wake behind),
          costs-notify n wake before,
          costs-notify n wake behind,
          gain-add wake (length before) (length behind) n size,
        );
      }

-- A crawl ends. If all the peers that a run is told of come from a finite universe, its steps are
-- bounded, in any interleaving: with `n` workers, n + 5 steps for each task that it starts with and
-- for each peer of the universe, n + 2 for each worker, and two for each wake-up that no notification
-- caused.
pub crawl_ends :
    (show : Peer → Text) (lower_other : ℕ → Text) (cfg : CrawlConfig) (parse : Text → Option Peer)
    (saved : Option CrawlState) (seeds : List Seed) (threads tor_threads : ℕ) (universe : List Peer)
    {s : System}
    → (r : Reach show lower_other cfg (start parse cfg.tor saved seeds threads tor_threads) s)
    → All (IsTold universe) (told r)
    → let begun = start parse cfg.tor saved seeds threads tor_threads in
      let n = length begun.workers in
      let tasks = length begun.shared.frontier.clearnet + length begun.shared.frontier.onion in
      steps r ≤ (n + 5) * (tasks + length universe) + (n + 2) * n + 2 * spurious_wakes r
crawl_ends show lower_other cfg parse saved seeds threads tor_threads universe {s} r h =
    let begun = start parse cfg.tor saved seeds threads tor_threads in
    let n = length begun.workers in
    let polls = start-Polls parse cfg.tor saved seeds threads tor_threads in
    omega (
      arith,
      (Reach-Pays n universe r refl (Polls-AllFit universe begun.workers polls) h).paid,
      load-times (n + 5) begun.shared.frontier.clearnet,
      load-times (n + 5) begun.shared.frontier.onion,
      unseen_bounds (n + 5) universe begun.shared.seen,
      Polls-costs n begun.workers polls,
    )
