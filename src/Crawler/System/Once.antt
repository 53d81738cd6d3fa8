-- ===== src/Crawler/System/Once.antt =====
-- In a fresh crawl no peer is probed twice, whatever the interleaving (src/crawler.rs).
use bip110_crawler.Common.{
  ℕ, ◌+◌, ◌≤◌, ◌≡◌, refl, ap, ◌∙◌, subst, Bool, true, false, not, ◌&&◌, List, [], ◌∷◌, ◌++◌, Option,
  none, if◌then◌else◌, Text, arith, Bool-cases, inl, inr,
}
use mathlib.Core.List.{reverse, reverse-append}
use bip110_crawler.P2p.Peer.{Peer, is_onion}
use bip110_crawler.Node.{NodeInfo}
use bip110_crawler.Crawler.{Task, CrawlConfig, Frontier, Shared}
use bip110_crawler.Crawler.Tasks.{Wake, got, next_task, finish_task}
use bip110_crawler.Crawler.Worker.{has_seen, Expansion}
use bip110_crawler.Crawler.Worker.Expand.{
  one_if, occurs, occurs-append, seen_once, seen_once-new, expand-balance,
}
use bip110_crawler.Crawler.System.{
  Pc, waiting, holding, finishing, Worker, System, woken, notify, Act, take, act, Reach, here, next,
}
use Act.{dial, queue, finish}
use bip110_crawler.Crawler.System.Start.{
  Seed, plant, plant_seeds, push_task, empty_shared, resume, start,
}
use bip110_crawler.Crawler.System.Start.Begin.{Polls, start-Polls}

-- The tasks of a worker that are still to be probed.
abbrev pending : Peer → Pc → ℕ
pending p (holding t) = occurs p (t ∷ [])
pending p (finishing nc ns) = occurs p nc + occurs p ns
pending p _ = 0

abbrev pending_all : Peer → List Worker → ℕ
pending_all p [] = 0
pending_all p (w ∷ ws) = pending p w.pc + pending_all p ws

pending_all-append :
    (p : Peer) (xs ys : List Worker)
    → pending_all p (xs ++ ys) ≡ pending_all p xs + pending_all p ys
pending_all-append p [] ys = omega arith
pending_all-append p (x ∷ xs) ys = omega (arith, pending_all-append p xs ys)

pending-woken : (p : Peer) (b : Bool) (pc : Pc) → pending p (woken b pc) ≡ pending p pc
pending-woken p true waiting = refl
pending-woken p false waiting = refl
pending-woken p b pc = refl

pending_all-notify :
    (p : Peer) (wake : Wake) (ws : List Worker) → pending_all p (notify wake ws) ≡ pending_all p ws
pending_all-notify p wake [] = refl
pending_all-notify p wake (w ∷ ws) = omega (
  arith,
  pending_all-notify p wake ws,
  pending-woken p (if w.onion_pool then wake.onion else wake.clearnet) w.pc,
)

queued : Peer → Frontier → ℕ
queued p f = occurs p f.clearnet + occurs p f.onion

occurs-reverse : (p : Peer) (xs : List Task) → occurs p (reverse xs) ≡ occurs p xs
occurs-reverse p [] = refl
occurs-reverse p ((q, d) ∷ xs) =
    ap (occurs p) (reverse-append ((q, d) ∷ []) xs)
    ∙ occurs-append p (reverse xs) ((q, d) ∷ [])
    ∙ omega (arith, occurs-reverse p xs)

took-queued :
    (p : Peer) (op : Bool) (f f' : Frontier) (t : Task)
    → next_task op f ≡ got t f'
    → queued p f' + occurs p (t ∷ []) ≡ queued p f
unfolding next_task queued
took-queued p op f f' t e = ground arith

finished-queued :
    (p : Peer) (f : Frontier) (nc ns : List Task)
    → queued p (finish_task f nc ns).0 ≡ queued p f + (occurs p nc + occurs p ns)
unfolding finish_task queued
finished-queued p f nc ns = omega (
  arith,
  occurs-append p (reverse nc) f.clearnet,
  occurs-append p (reverse ns) f.onion,
  occurs-reverse p nc,
  occurs-reverse p ns,
)

-- What is queued, pending or probed has been seen, and is counted once.
abbrev Once : Peer → System → ℕ → Type 0
Once p s probed =
    queued p s.shared.frontier + pending_all p s.workers + probed ≤ seen_once p s.shared.seen

module _ {show : Peer → Text} {lower_other : ℕ → Text} {cfg : CrawlConfig} where
  -- The peers that an action, and a run, probes; newest first.
  abbrev pub dialed_by :
      {s s' : Shared} {op : Bool} {pc pc' : Pc} {wake : Wake}
      → Act show lower_other cfg s op pc s' pc' wake
      → List Task
  dialed_by (dial {t} e) = t ∷ []
  dialed_by _ = []

  abbrev pub dialed : {s t : System} → Reach show lower_other cfg s t → List Task
  dialed here = []
  dialed (next r (act _ _ _ _ a)) = dialed_by a ++ dialed r

  -- Each action keeps, for every peer, what is queued, pending and probed in step with what is seen.
  Act-balance :
      (p : Peer) {s s' : Shared} {op : Bool} {pc pc' : Pc} {wake : Wake}
      → (a : Act show lower_other cfg s op pc s' pc' wake)
      → queued p s'.frontier + pending p pc' + occurs p (dialed_by a) + seen_once p s.seen
        ≤ queued p s.frontier + pending p pc + seen_once p s'.seen
  Act-balance p {s} {op} (take {t} {f} e) = omega (arith, took-queued p op s.frontier f t e)
  Act-balance p {s} (queue {t} {discovered} {x} e) =
      let h : occurs p x.new_clearnet + occurs p x.new_onion + seen_once p s.seen
          ≡ seen_once p x.seen =
        subst
          (λ (y : Expansion).
            occurs p y.new_clearnet + occurs p y.new_onion + seen_once p s.seen
            ≡ seen_once p y.seen)
          e (expand-balance show cfg t p discovered s.seen s.edges) in
      omega arith
  Act-balance p {s} (finish {new_clearnet} {new_onion} {f} e) =
      let h : queued p f ≡ queued p s.frontier + (occurs p new_clearnet + occurs p new_onion) =
        subst
          (λ (r : Frontier × Wake).
            queued p r.0 ≡ queued p s.frontier + (occurs p new_clearnet + occurs p new_onion))
          e (finished-queued p s.frontier new_clearnet new_onion) in
      omega arith
  Act-balance p {s} (dial {t} e) = omega arith
  Act-balance p {s} _ = omega arith

  Reach-Once :
      (p : Peer) {s t : System}
      → Once p s 0
      → (r : Reach show lower_other cfg s t) → Once p t (occurs p (dialed r))
  Reach-Once p o here = o
  Reach-Once p o (next {t = u} r (act before w behind {pc'} {wake} e a)) = omega (
    arith,
    Reach-Once p o r,
    Act-balance p a,
    occurs-append p (dialed_by a) (dialed r),
    ap (pending_all p) e,
    pending_all-append p before (w ∷ behind),
    pending_all-append p (notify wake before) (record w { pc = pc' } ∷ notify wake behind),
    pending_all-notify p wake before,
    pending_all-notify p wake behind,
  )

plant-balance :
    (p : Peer) (tor : Bool) (q : Peer) (depth : ℕ) (pre : Option NodeInfo) (s : Shared)
    → queued p s.frontier ≤ seen_once p s.seen
    → queued p (plant tor q depth pre s).frontier ≤ seen_once p (plant tor q depth pre s).seen
unfolding plant push_task queued
plant-balance p tor q depth pre s h = elim (Bool-cases (is_onion q && not tor)) [
  | inl skip ↦ rw (skip, plant) h
  | inr keep ↦ elim (Bool-cases (has_seen q s.seen)) [
    | inl old ↦ rw (keep, old, plant) h
    | inr new ↦ elim (Bool-cases (is_onion q)) [
      | inl o ↦ rw (keep, new, plant, o, push_task) (omega (arith, seen_once-new p q s.seen new))
      | inr c ↦ rw (keep, new, plant, c, push_task) (omega (arith, seen_once-new p q s.seen new))
    ]
  ]
]

plant_seeds-balance :
    (p : Peer) (tor : Bool) (seeds : List Seed) (s : Shared)
    → queued p s.frontier ≤ seen_once p s.seen
    → queued p (plant_seeds tor seeds s).frontier ≤ seen_once p (plant_seeds tor seeds s).seen
unfolding plant_seeds
plant_seeds-balance p tor [] s h = h
plant_seeds-balance p tor ((q, depth, pre) ∷ seeds) s h =
    plant_seeds-balance p tor seeds _ (plant-balance p tor q depth pre s h)

Polls-pending : (p : Peer) (ws : List Worker) → Polls ws → pending_all p ws ≡ 0
Polls-pending p [] h = refl
Polls-pending p (w ∷ ws) h = rw h.0 (omega (arith, Polls-pending p ws h.1))

start-Once :
    (parse : Text → Option Peer) (tor : Bool) (seeds : List Seed) (threads tor_threads : ℕ)
    (p : Peer)
    → Once p (start parse tor none seeds threads tor_threads) 0
unfolding start resume queued
start-Once parse tor seeds threads tor_threads p = omega (
  arith,
  Polls-pending p _ (start-Polls parse tor none seeds threads tor_threads),
  plant_seeds-balance p tor seeds empty_shared (omega arith),
)

one_if-le : (b : Bool) → one_if b ≤ 1
one_if-le true = omega arith
one_if-le false = omega arith

-- In a crawl that starts from seeds, with no saved state, no run probes a peer more than once, at
-- any depth and by any worker.
pub dialed_once :
    (show : Peer → Text) (lower_other : ℕ → Text) (cfg : CrawlConfig) (parse : Text → Option Peer)
    (seeds : List Seed) (threads tor_threads : ℕ) {s : System}
    → (r : Reach show lower_other cfg (start parse cfg.tor none seeds threads tor_threads) s)
    → (p : Peer) → occurs p (dialed r) ≤ 1
dialed_once show lower_other cfg parse seeds threads tor_threads {s} r p = omega (
  arith,
  Reach-Once p (start-Once parse cfg.tor seeds threads tor_threads p) r,
  one_if-le (has_seen p s.shared.seen),
)
