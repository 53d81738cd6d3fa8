-- ===== src/Crawler/System/Pools.antt =====
-- The two worker pools: no worker changes its pool, and without a proxy no onion work appears
-- (src/crawler.rs).
use bip110_crawler.Common.{
  ℕ, zero, suc, ◌+◌, ◌≤◌, ◌≡◌, refl, ap, ◌∙◌, subst, Bool, true, false, List, [], ◌∷◌, ◌++◌,
  if◌then◌else◌, replicate, max, All, All-append, Text, arith, Bool-cases, inl, inr,
}
use bip110_crawler.P2p.Peer.{Peer, is_onion}
use bip110_crawler.Node.{Edge}
use bip110_crawler.Crawler.{Task, CrawlConfig, Frontier, Shared}
use bip110_crawler.Crawler.Tasks.{Wake, got, next_task, finish_task}
use bip110_crawler.Crawler.Worker.{Expansion, expand, expand_loop, expand_child}
use bip110_crawler.Crawler.System.{
  Pc, polling, waiting, finishing, Worker, System, woken, notify, Act, take, Step, act, Reach, here,
  next,
}
use Act.{queue, finish}
use bip110_crawler.Crawler.System.Start.{pools}
use bip110_crawler.Crawler.System.Invariant.{All-parts}

abbrev pub in_pool : Bool → Bool → ℕ
in_pool true true = 1
in_pool false false = 1
in_pool _ _ = 0

abbrev pub pool_count : Bool → List Worker → ℕ
pool_count op [] = 0
pool_count op (w ∷ ws) = in_pool op w.onion_pool + pool_count op ws

pool_count-append :
    (op : Bool) (xs ys : List Worker)
    → pool_count op (xs ++ ys) ≡ pool_count op xs + pool_count op ys
pool_count-append op [] ys = omega arith
pool_count-append op (x ∷ xs) ys = omega (arith, pool_count-append op xs ys)

pool_count-notify :
    (op : Bool) (wake : Wake) (ws : List Worker) → pool_count op (notify wake ws) ≡ pool_count op ws
pool_count-notify op wake [] = refl
pool_count-notify op wake (w ∷ ws) = omega (arith, pool_count-notify op wake ws)

module _ {show : Peer → Text} {lower_other : ℕ → Text} {cfg : CrawlConfig} where
  Step-pools :
      (op : Bool) {s t : System}
      → Step show lower_other cfg s t
      → pool_count op t.workers ≡ pool_count op s.workers
  Step-pools op {s} (act before w behind {pc'} {wake} e a) = omega (
    arith,
    ap (pool_count op) e,
    pool_count-append op before (w ∷ behind),
    pool_count-append op (notify wake before) (record w { pc = pc' } ∷ notify wake behind),
    pool_count-notify op wake before,
    pool_count-notify op wake behind,
  )

  pub Reach-pools :
      (op : Bool) {s t : System}
      → Reach show lower_other cfg s t
      → pool_count op t.workers ≡ pool_count op s.workers
  Reach-pools op here = refl
  Reach-pools op (next r st) = Step-pools op st ∙ Reach-pools op r

pool_count-replicate :
    (op : Bool) (n : ℕ) → pool_count op (replicate n (record { onion_pool = op; pc = polling })) ≡ n
pool_count-replicate true zero = refl
pool_count-replicate true (suc n) = omega (arith, pool_count-replicate true n)
pool_count-replicate false zero = refl
pool_count-replicate false (suc n) = omega (arith, pool_count-replicate false n)

pub pools-clearnet :
    (tor : Bool) (threads tor_threads : ℕ) → 1 ≤ pool_count false (pools tor threads tor_threads)
unfolding pools
pools-clearnet tor threads tor_threads = omega (
  arith,
  pool_count-append false (replicate (max threads 1) (record { onion_pool = false; pc = polling }))
      _,
  pool_count-replicate false (max threads 1),
)

pub pools-onion : (threads tor_threads : ℕ) → 1 ≤ pool_count true (pools true threads tor_threads)
unfolding pools
pools-onion threads tor_threads = omega (
  arith,
  pool_count-append true (replicate (max threads 1) (record { onion_pool = false; pc = polling }))
      (replicate (max tor_threads 1) (record { onion_pool = true; pc = polling })),
  pool_count-replicate true (max tor_threads 1),
)

-- The onion tasks that a worker is about to hand over.
abbrev pub pending_onion : Pc → List Task
pending_onion (finishing nc ns) = ns
pending_onion _ = []

-- No onion task, on the stack or pending.
pub record Quiet (s : System) : Type 0 where
  pub stack : s.shared.frontier.onion ≡ []
  pub pending : All (λ w. pending_onion w.pc ≡ []) s.workers

module _ (show : Peer → Text) (cfg : CrawlConfig) (off : cfg.tor ≡ false) where
  expand_child-quiet :
      (addr : Peer) (depth : ℕ) (child : Peer) (x : Expansion)
      → x.new_onion ≡ []
      → (expand_child show cfg addr depth child x).new_onion ≡ []
  unfolding expand_child
  expand_child-quiet addr depth child x q = elim (Bool-cases (is_onion child)) [
    | inl o ↦ rw (o, off, expand_child) q
    | inr c ↦ rw (c, expand_child) (ground arith)
  ]

  expand_loop-quiet :
      (addr : Peer) (depth : ℕ) (discovered : List Peer) (x : Expansion)
      → x.new_onion ≡ []
      → (expand_loop show cfg addr depth discovered x).new_onion ≡ []
  unfolding expand_loop
  expand_loop-quiet addr depth [] x q = q
  expand_loop-quiet addr depth (child ∷ discovered) x q =
      expand_loop-quiet addr depth discovered _ (expand_child-quiet addr depth child x q)

module _ (show : Peer → Text) (cfg : CrawlConfig) (off : cfg.tor ≡ false) where
  expand-quiet :
      (t : Task) (discovered seen : List Peer) (edges : List Edge)
      → (expand show cfg t discovered seen edges).new_onion ≡ []
  unfolding expand
  expand-quiet (addr, depth) discovered seen edges =
      expand_loop-quiet show cfg off addr depth discovered _ refl

took-quiet :
    (op : Bool) (f f' : Frontier) (t : Task)
    → next_task op f ≡ got t f'
    → f.onion ≡ []
    → f'.onion ≡ []
unfolding next_task
took-quiet op f f' t e q = ground arith

finished-quiet :
    (f : Frontier) (nc ns : List Task) → f.onion ≡ [] → ns ≡ [] → (finish_task f nc ns).0.onion ≡ []
unfolding finish_task
finished-quiet f nc ns q p = rw (p, q) refl

woken-pending : (b : Bool) (pc : Pc) → pending_onion pc ≡ [] → pending_onion (woken b pc) ≡ []
woken-pending true waiting e = refl
woken-pending false waiting e = refl
woken-pending b pc e = e

pending-notify :
    (wake : Wake) (ws : List Worker)
    → All (λ w. pending_onion w.pc ≡ []) ws
    → All (λ w. pending_onion w.pc ≡ []) (notify wake ws)
pending-notify wake [] a = tt
pending-notify wake (w ∷ ws) a = (
  woken-pending (if w.onion_pool then wake.onion else wake.clearnet) w.pc a.0,
  pending-notify wake ws a.1,
)

module _ {show : Peer → Text} {lower_other : ℕ → Text} {cfg : CrawlConfig}
    (off : cfg.tor ≡ false) where
  Act-quiet :
      {s s' : Shared} {op : Bool} {pc pc' : Pc} {wake : Wake}
      → Act show lower_other cfg s op pc s' pc' wake
      → s.frontier.onion ≡ []
      → pending_onion pc ≡ []
      → (s'.frontier.onion ≡ []) × (pending_onion pc' ≡ [])
  Act-quiet {s} {op} (take {t} {f} e) q p = (took-quiet op s.frontier f t e q, refl)
  Act-quiet {s} (queue {t} {discovered} {x} e) q p = (
    q,
    subst (λ (y : Expansion). y.new_onion ≡ []) e
        (expand-quiet show cfg off t discovered s.seen s.edges),
  )
  Act-quiet {s} (finish {new_clearnet} {new_onion} e) q p = (
    subst (λ (r : Frontier × Wake). r.0.onion ≡ []) e
        (finished-quiet s.frontier new_clearnet new_onion q p),
    refl,
  )
  Act-quiet {s} _ q p = (q, refl)

  pub Step-Quiet : {s t : System} → Step show lower_other cfg s t → Quiet s → Quiet t
  Step-Quiet {s} (act before w behind {pc'} {wake} e a) h =
      let (b, (own, c)) =
        All-parts (λ w. pending_onion w.pc ≡ []) before (w ∷ behind)
          (subst (All (λ w. pending_onion w.pc ≡ [])) e h.pending) in
      let (stack, pend) = Act-quiet a h.stack own in
      record {
        stack = stack;
        pending =
            All-append _ (notify wake before) _ (pending-notify wake before b)
              (pend, pending-notify wake behind c);
      }

  pub Reach-Quiet : {s t : System} → Reach show lower_other cfg s t → Quiet s → Quiet t
  Reach-Quiet here h = h
  Reach-Quiet (next r st) h = Step-Quiet st (Reach-Quiet r h)
