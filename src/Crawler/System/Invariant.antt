-- ===== src/Crawler/System/Invariant.antt =====
-- What every interleaving keeps: `active` counts the busy workers, a waiting worker has nothing to
-- do, and a worker leaves only when the crawl is finished (src/crawler.rs).
use bip110_crawler.Common.{
  ℕ, ◌+◌, ◌≤◌, ◌≡◌, refl, sym, ap, ◌∙◌, subst, Bool, List, [], ◌∷◌, ◌++◌, All, All-append, arith,
}
use bip110_crawler.P2p.Peer.{Peer}
use bip110_crawler.Common.{Text}
use bip110_crawler.Crawler.{Task, CrawlConfig, Frontier, Shared}
use bip110_crawler.Crawler.Tasks.{Wake, wake_all, wake_none, finished_frontier, finish_task}
use bip110_crawler.Crawler.System.{
  Pc, polling, finishing, Worker, System, wake_worker, notify, Act, take, leave, sleep, Step, act,
  Reach, here, next,
}
use Act.{finish}
use bip110_crawler.Crawler.System.Resting.{
  busy_pc, busy, busy-append, busy-notify, Rests, WorkerRests, undisturbed, took, took-Rests, left,
  slept, after, finish_task_lem, finished-Rests,
}

pub record Inv (s : System) : Type 0 where
  pub counted : s.shared.frontier.active ≡ busy s.workers
  pub rests : All (WorkerRests s.shared.frontier) s.workers

-- How an action changes the counts, and what it keeps for every other worker.
record Kept (f f' : Frontier) (pc pc' : Pc) (op : Bool) (wake : Wake) : Type 0 where
  balance : f'.active + busy_pc pc ≡ f.active + busy_pc pc'
  own : Rests f' op pc'
  others : (w : Worker) → WorkerRests f w → WorkerRests f' (wake_worker wake w)

same_frontier :
    {pc pc' : Pc} (f : Frontier) (op : Bool) (wake : Wake)
    → busy_pc pc ≡ busy_pc pc'
    → Rests f op pc'
    → Kept f f pc pc' op wake
same_frontier f op wake b r = record { balance = omega arith; own = r; others = undisturbed f wake }

finished_step :
    (f : Frontier) (nc ns : List Task) (op : Bool) {g : Frontier} {k : Wake}
    → finish_task f nc ns ≡ (g, k)
    → 1 ≤ f.active
    → Kept f g (finishing nc ns) polling op k
finished_step f nc ns op {g} {k} e b =
    subst (λ (r : Frontier × Wake). Kept f r.0 (finishing nc ns) polling op r.1)
      (sym (finish_task_lem f nc ns) ∙ e)
      (record {
        balance = less;
        own = tt;
        others = λ w r. finished-Rests f nc ns w.onion_pool w.pc b r;
      })
  where
    less : (after f nc ns).active + 1 ≡ f.active + 0
    less = unfold finished_frontier in omega arith

All-notify :
    (f f' : Frontier) (wake : Wake)
    → ((w : Worker) → WorkerRests f w → WorkerRests f' (wake_worker wake w))
    → (ws : List Worker) → All (WorkerRests f) ws
    → All (WorkerRests f') (notify wake ws)
All-notify f f' wake h [] a = tt
All-notify f f' wake h (w ∷ ws) a = (h w a.0, All-notify f f' wake h ws a.1)

pub All-parts : (P : Worker → Type 0) (xs ys : List Worker) → All P (xs ++ ys) → All P xs × All P ys
All-parts P [] ys a = (tt, a)
All-parts P (x ∷ xs) ys a = let (l, r) = All-parts P xs ys a.1 in ((a.0, l), r)

module _ {show : Peer → Text} {lower_other : ℕ → Text} {cfg : CrawlConfig} where
  Act-Kept :
      {s s' : Shared} {op : Bool} {pc pc' : Pc} {wake : Wake}
      → Act show lower_other cfg s op pc s' pc' wake
      → busy_pc pc ≤ s.frontier.active
      → Kept s.frontier s'.frontier pc pc' op wake
  Act-Kept {s} {op} (take {t} {f} e) b = record {
    balance = omega (arith, took op s.frontier f t e);
    own = tt;
    others = λ w r. undisturbed f wake_none w (took-Rests op s.frontier f t e w.onion_pool w.pc r);
  }
  Act-Kept {s} {op} (leave e) b = same_frontier s.frontier op wake_all refl (left op s.frontier e)
  Act-Kept {s} {op} (sleep e) b = same_frontier s.frontier op wake_none refl (slept op s.frontier e)
  Act-Kept {s} {op} (finish {new_clearnet} {new_onion} e) b =
      finished_step s.frontier new_clearnet new_onion op e b
  Act-Kept {s} {op} _ b = same_frontier s.frontier op wake_none refl tt

  -- Every step of the system keeps the invariant.
  pub Step-Inv : {s t : System} → Step show lower_other cfg s t → Inv s → Inv t
  Step-Inv {s} (act before w behind {s'} {pc'} {wake} e a) inv = record {
    counted = counts;
    rests =
        All-append _ (notify wake before) _ (All-notify f g wake k.others before (parts.0))
          (k.own, All-notify f g wake k.others behind (parts.1.1));
  }
    where
      f : Frontier
      f = s.shared.frontier

      g : Frontier
      g = s'.frontier

      total : busy s.workers ≡ busy before + (busy_pc w.pc + busy behind)
      total = ap busy e ∙ busy-append before (w ∷ behind)

      k : Kept f g w.pc pc' w.onion_pool wake
      k = Act-Kept a (omega (arith, inv.counted, total))

      parts : All (WorkerRests f) before × (WorkerRests f w × All (WorkerRests f) behind)
      parts =
          All-parts (WorkerRests f) before (w ∷ behind) (subst (All (WorkerRests f)) e inv.rests)

      counts : g.active ≡ busy (notify wake before ++ record w { pc = pc' } ∷ notify wake behind)
      counts = omega (
        arith,
        busy-append (notify wake before) (record w { pc = pc' } ∷ notify wake behind),
        busy-notify wake before,
        busy-notify wake behind,
        total,
        inv.counted,
        k.balance,
      )

  pub Reach-Inv : {s t : System} → Inv s → Reach show lower_other cfg s t → Inv t
  Reach-Inv i here = i
  Reach-Inv i (next r st) = Step-Inv st (Reach-Inv i r)
