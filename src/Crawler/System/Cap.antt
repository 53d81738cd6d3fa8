-- ===== src/Crawler/System/Cap.antt =====
-- The cap on nodes (src/crawler.rs: `max_nodes`) bounds a crawl, whatever the interleaving: workers
-- that have passed the check and still dial can each add one node beyond it.
use bip110_crawler.Common.{
  ℕ, ◌+◌, ◌-◌, ◌≤◌, ◌<◌, ◌≡◌, ◌≢◌, refl, ap, ◌∙◌, Bool, true, false, List, [], ◌∷◌, ◌++◌, Option,
  if◌then◌else◌, length, length-append, max, Text, arith,
}
use bip110_crawler.P2p.Peer.{Peer}
use bip110_crawler.Node.{NodeInfo}
use bip110_crawler.Crawler.{CrawlConfig, Shared}
use bip110_crawler.Crawler.Tasks.{Wake}
use bip110_crawler.Crawler.Worker.{insert_node, or_insert_node, at_cap}
use bip110_crawler.Crawler.System.{
  Pc, waiting, dialing, Worker, System, woken, notify, Act, Step, act, Reach, here, next,
}
use Act.{dial, answered, answered_last, unreachable}
use bip110_crawler.Crawler.System.Start.{CrawlState, Seed, start}
use bip110_crawler.Crawler.System.Start.Begin.{Polls, start-Polls}

abbrev dials : Pc → ℕ
dials (dialing t) = 1
dials _ = 0

abbrev dialers : List Worker → ℕ
dialers [] = 0
dialers (w ∷ ws) = dials w.pc + dialers ws

dialers-append : (xs ys : List Worker) → dialers (xs ++ ys) ≡ dialers xs + dialers ys
dialers-append [] ys = omega arith
dialers-append (x ∷ xs) ys = omega (arith, dialers-append xs ys)

dials-le : (pc : Pc) → dials pc ≤ 1
dials-le (dialing t) = omega arith
dials-le _ = omega arith

dialers-le : (ws : List Worker) → dialers ws ≤ length ws
dialers-le [] = omega arith
dialers-le (w ∷ ws) = omega (arith, dials-le w.pc, dialers-le ws)

dials-woken : (b : Bool) (pc : Pc) → dials (woken b pc) ≡ dials pc
dials-woken true waiting = refl
dials-woken false waiting = refl
dials-woken b pc = refl

dialers-notify : (wake : Wake) (ws : List Worker) → dialers (notify wake ws) ≡ dialers ws
dialers-notify wake [] = refl
dialers-notify wake (w ∷ ws) = omega (
  arith,
  dialers-notify wake ws,
  dials-woken (if w.onion_pool then wake.onion else wake.clearnet) w.pc,
)

length-notify : (wake : Wake) (ws : List Worker) → length (notify wake ws) ≡ length ws
length-notify wake [] = refl
length-notify wake (w ∷ ws) = omega (arith, length-notify wake ws)

Polls-dialers : (ws : List Worker) → Polls ws → dialers ws ≡ 0
Polls-dialers [] h = refl
Polls-dialers (w ∷ ws) h = rw h.0 (omega (arith, Polls-dialers ws h.1))

length-insert_node :
    (p : Peer) (info : NodeInfo) (nodes : List (Peer × NodeInfo))
    → length (insert_node p info nodes) ≤ length nodes + 1
unfolding insert_node
length-insert_node p info [] = omega arith
length-insert_node p info ((q, old) ∷ nodes) = ground (arith, length-insert_node p info nodes)

length-or_insert_node :
    (p : Peer) (info : NodeInfo) (nodes : List (Peer × NodeInfo))
    → length (or_insert_node p info nodes) ≤ length nodes + 1
unfolding or_insert_node
length-or_insert_node p info [] = omega arith
length-or_insert_node p info ((q, old) ∷ nodes) = ground (arith, length-or_insert_node p info nodes)

below_cap :
    (cfg : CrawlConfig) (n : ℕ) → cfg.max_nodes ≢ 0 → at_cap cfg n ≡ false → n < cfg.max_nodes
unfolding at_cap
below_cap cfg n c e = ground arith

-- An action adds no node and no dialing worker, or a worker starts to dial below the cap.
data Change (cfg : CrawlConfig) (s s' : Shared) (pc pc' : Pc) : Type 0 where
  kept : length s'.nodes + dials pc' ≤ length s.nodes + dials pc → Change cfg s s' pc pc'
  began : length s.nodes < cfg.max_nodes → length s'.nodes ≡ length s.nodes → Change cfg s s' pc pc'

-- With `workers` workers: nodes and dialing workers stay within the bound.
record Capped (cfg : CrawlConfig) (initial workers : ℕ) (s : System) : Type 0 where
  count : length s.workers ≡ workers
  bounded : length s.shared.nodes + dialers s.workers ≤ max initial (cfg.max_nodes + workers - 1)

module _ {show : Peer → Text} {lower_other : ℕ → Text} {cfg : CrawlConfig} where
  Act-Change :
      cfg.max_nodes ≢ 0
      → {s s' : Shared} {op : Bool} {pc pc' : Pc} {wake : Wake}
      → Act show lower_other cfg s op pc s' pc' wake
      → Change cfg s s' pc pc'
  Act-Change c {s} (dial {t} e) = Change.began (below_cap cfg (length s.nodes) c e) refl
  Act-Change c {s} (answered {t} attempt r now e b) =
      Change.kept (omega (arith, length-insert_node t.0 _ s.nodes))
  Act-Change c {s} (answered_last {t} attempt r now e b) =
      Change.kept (omega (arith, length-insert_node t.0 _ s.nodes))
  Act-Change c {s} (unreachable {t} attempt chain e) =
      Change.kept (omega (arith, length-or_insert_node t.0 _ s.nodes))
  Act-Change c _ = Change.kept (omega arith)

  Step-Capped :
      cfg.max_nodes ≢ 0
      → (initial workers : ℕ) {s t : System} → Step show lower_other cfg s t
      → Capped cfg initial workers s
      → Capped cfg initial workers t
  Step-Capped c initial workers {s} (act before w behind {s'} {pc'} {wake} e a) h = record {
    count = same ∙ h.count;
    bounded = elim (Act-Change c a) [
      | Change.kept k ↦ omega (arith, k, h.bounded, total, total')
      | Change.began b q ↦ omega (
        arith,
        b,
        q,
        total',
        dialers-le before,
        dialers-le behind,
        length-notify wake before,
        length-notify wake behind,
        dials-le pc',
        same,
        h.count,
        length-append (notify wake before) (record w { pc = pc' } ∷ notify wake behind),
      )
    ];
  }
    where
      total : dialers s.workers ≡ dialers before + (dials w.pc + dialers behind)
      total = ap dialers e ∙ dialers-append before (w ∷ behind)

      total' :
          dialers (notify wake before ++ record w { pc = pc' } ∷ notify wake behind)
          ≡ dialers before + (dials pc' + dialers behind)
      total' = omega (
        arith,
        dialers-append (notify wake before) (record w { pc = pc' } ∷ notify wake behind),
        dialers-notify wake before,
        dialers-notify wake behind,
      )

      same :
          length (notify wake before ++ record w { pc = pc' } ∷ notify wake behind)
          ≡ length s.workers
      same = omega (
        arith,
        length-append (notify wake before) (record w { pc = pc' } ∷ notify wake behind),
        length-notify wake before,
        length-notify wake behind,
        ap (λ (ws : List Worker). length ws) e,
        length-append before (w ∷ behind),
      )

  Reach-Capped :
      cfg.max_nodes ≢ 0
      → (initial workers : ℕ) {s t : System} → Reach show lower_other cfg s t
      → Capped cfg initial workers s
      → Capped cfg initial workers t
  Reach-Capped c initial workers here h = h
  Reach-Capped c initial workers (next r st) h =
      Step-Capped c initial workers st (Reach-Capped c initial workers r h)

-- With a cap on nodes, no run of a crawl records more than the cap plus one node for each worker
-- but one, or the number of nodes at the start where that is larger.
pub nodes_capped :
    (show : Peer → Text) (lower_other : ℕ → Text) (cfg : CrawlConfig) (parse : Text → Option Peer)
    (saved : Option CrawlState) (seeds : List Seed) (threads tor_threads : ℕ) {s : System}
    → cfg.max_nodes ≢ 0
    → Reach show lower_other cfg (start parse cfg.tor saved seeds threads tor_threads) s
    → length s.shared.nodes
      ≤ max
          (length (start parse cfg.tor saved seeds threads tor_threads).shared.nodes)
          (cfg.max_nodes + length (start parse cfg.tor saved seeds threads tor_threads).workers - 1)
nodes_capped show lower_other cfg parse saved seeds threads tor_threads {s} c r =
    let s0 = start parse cfg.tor saved seeds threads tor_threads in
    let idle =
      Polls-dialers s0.workers (start-Polls parse cfg.tor saved seeds threads tor_threads) in
    let h =
      Reach-Capped c (length s0.shared.nodes) (length s0.workers) r
        (record { count = refl; bounded = omega (arith, idle) }) in
    omega (arith, h.bounded)
