-- ===== src/Crawler/System/Progress/Standing.antt =====
-- Workers that stand still, and what their standing still says of the frontier (src/crawler.rs).
use bip110_crawler.Common.{
  ◌≤◌, ◌≡◌, ◌⊎◌, inl, inr, refl, Bool, true, false, not, List, [], ◌∷◌, All, arith, Bool-cases,
}
use bip110_crawler.Crawler.{Task, Frontier, Reply}
use bip110_crawler.Crawler.Tasks.{Next, got, finished, wait, is_finished}
use bip110_crawler.Crawler.Worker.{Probe, Cause}
use bip110_crawler.Crawler.System.{Pc, waiting, exited, Worker}
use bip110_crawler.Crawler.System.Resting.{busy_pc, busy, Rests, WorkerRests, stack_of}
use bip110_crawler.Crawler.System.Pools.{in_pool, pool_count}

pub Next-cases :
    (n : Next) → ((t : Task) × (f : Frontier) × (n ≡ got t f)) ⊎ ((n ≡ finished) ⊎ (n ≡ wait))
Next-cases (got t f) = inl (t, f, refl)
Next-cases finished = inr (inl refl)
Next-cases wait = inr (inr refl)

pub Probe-cases :
    (p : Probe) → ((r : Reply) × (p ≡ Probe.reached r)) ⊎ ((c : List Cause) × (p ≡ Probe.failed c))
Probe-cases (Probe.reached r) = inl (r, refl)
Probe-cases (Probe.failed c) = inr (c, refl)

-- Standing still: waiting on a condition variable, or gone.
abbrev pub stands : Pc → Bool
stands waiting = true
stands exited = true
stands _ = false

abbrev pub AllStand : List Worker → Type 0
AllStand = All (λ w. stands w.pc ≡ true)

pub stand_idle : (ws : List Worker) → AllStand ws → busy ws ≡ 0
stand_idle [] h = refl
stand_idle (w ∷ ws) h = omega (arith, stand_idle ws h.1, one w.pc h.0)
  where
    one : (pc : Pc) → stands pc ≡ true → busy_pc pc ≡ 0
    one pc e = ground arith

-- A pool whose workers all stand still has an empty stack, unless the crawl is finished.
pub resting_stack :
    (f : Frontier) (op : Bool) (ws : List Worker)
    → is_finished f ≡ false
    → AllStand ws
    → All (WorkerRests f) ws
    → 1 ≤ pool_count op ws
    → stack_of op f ≡ []
resting_stack f op [] u h r c = absurd (omega arith)
resting_stack f op (w ∷ ws) u h r c = elim (Bool-cases (same op w.onion_pool)) [
  | inl e ↦ one w.pc op w.onion_pool e h.0 r.0
  | inr e ↦ resting_stack f op ws u h.1 r.1 (omega (arith, other op w.onion_pool e))
]
  where
    same : Bool → Bool → Bool
    same true b = b
    same false b = not b

    other : (a b : Bool) → same a b ≡ false → in_pool a b ≡ 0
    other a b e = ground arith

    one :
        (pc : Pc) (a b : Bool)
        → same a b ≡ true
        → stands pc ≡ true
        → Rests f b pc
        → stack_of a f ≡ []
    one waiting a b e s r = ground arith
    one exited a b e s r = absurd (cc (r, u))
    one pc a b e s r = absurd (cc s)

pub both_empty :
    (f : Frontier) → f.clearnet ≡ [] → f.onion ≡ [] → f.active ≡ 0 → is_finished f ≡ true
unfolding is_finished
both_empty f c o a = rw (c, o, a) refl

pub finished_empty :
    (f : Frontier) → is_finished f ≡ true → (f.clearnet ≡ []) × (f.onion ≡ []) × (f.active ≡ 0)
unfolding is_finished
finished_empty f e = ground arith

pub all_exited :
    (f : Frontier) (ws : List Worker)
    → is_finished f ≡ true
    → AllStand ws
    → All (WorkerRests f) ws
    → All (λ w. w.pc ≡ exited) ws
all_exited f [] e h r = tt
all_exited f (w ∷ ws) e h r = (one w.onion_pool w.pc h.0 r.0, all_exited f ws e h.1 r.1)
  where
    one : (op : Bool) (pc : Pc) → stands pc ≡ true → Rests f op pc → pc ≡ exited
    one op waiting s (_, u) = absurd (cc (e, u))
    one op exited s r = refl
    one op pc s r = absurd (cc s)
