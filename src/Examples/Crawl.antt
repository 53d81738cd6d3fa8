-- ===== src/Examples/Crawl.antt =====
-- A small crawl, step by step, and the crawl's theorems at it (src/crawler.rs).
use bip110_crawler.Common.{
  ℕ, max, ◌+◌, ◌*◌, ◌-◌, ◌≤◌, ◌≡◌, ◌⊎◌, refl, false, [], ◌∷◌, Option, none, length, Text, list_eq,
  pos, codes,
}
use bip110_crawler.P2p.Peer.{v4, Peer, is_onion}
use bip110_crawler.Crawler.{CrawlConfig, Reply}
use bip110_crawler.Crawler.Tasks.{next_task}
use bip110_crawler.Crawler.Worker.{
  Cause, Probe, retry_loop, should_retry, probe_with_retries, has_seen, peer_eq, ip_eq, at_cap,
  has_budget, insert_node, reached_node,
}
use bip110_crawler.Crawler.Worker.Retry.{Settles, probe_with_retries-Settles}
use bip110_crawler.Crawler.Worker.Expand.{occurs}
use bip110_crawler.Crawler.System.{System, Reach, here, next, act, Act, Pc}
use bip110_crawler.Crawler.System.Start.{start, plant_seeds, plant, push_task, pools, resume}
use bip110_crawler.Crawler.System.Progress.{Runs, Over, no_deadlock}
use bip110_crawler.Crawler.System.Cap.{nodes_capped}
use bip110_crawler.Crawler.System.Once.{dialed, dialed_once}
use bip110_crawler.Crawler.System.Ends.{steps, spurious_wakes, crawl_ends}
use bip110_crawler.Crawler.System.Ends.Measure.{IsTold}

abbrev cfg : CrawlConfig
cfg = record {
  max_depth = 2;
  max_nodes = 0;
  retries = 1;
  edges_per_node = 1;
  tor = false;
  rules = [];
  locator = [];
  chain_ref_height = pos 0;
}

abbrev show : Peer → Text
show p = codes "peer"

abbrev ascii_only : ℕ → Text
ascii_only c = c ∷ []

abbrev parse : Text → Option Peer
parse t = none

abbrev seed : Peer
seed = Peer.clearnet (v4 (1 ∷ 2 ∷ 3 ∷ 4 ∷ [])) 8333

abbrev other : Peer
other = Peer.clearnet (v4 (5 ∷ 6 ∷ 7 ∷ 8 ∷ [])) 8333

abbrev time_out : ℕ → Probe
time_out n = Probe.failed (Cause.not_io ∷ Cause.timed_out ∷ [])

probe_with_retries-Settles_example :
    (n : ℕ) × (probe_with_retries cfg time_out ≡ time_out n) × Settles time_out 0 1 n
probe_with_retries-Settles_example = probe_with_retries-Settles cfg time_out

-- One worker takes the seed and dials it.
abbrev begin : System
begin = start parse cfg.tor none ((seed, 0, none) ∷ []) 1 0

abbrev begun : System
begun = record {
  shared = record {
    frontier = record { clearnet = []; onion = []; active = 1 };
    seen = seed ∷ [];
    nodes = [];
    edges = [];
  };
  workers = record { onion_pool = false; pc = Pc.dialing (seed, 0) } ∷ [];
}

first_run : Reach show ascii_only cfg begin begun
unfolding start plant_seeds plant push_task pools resume next_task has_seen at_cap is_onion
first_run = next (next here (act [] _ [] refl (Act.take refl))) (act [] _ [] refl (Act.dial refl))

dialed_once_example : occurs seed (dialed first_run) ≤ 1
dialed_once_example =
    dialed_once show ascii_only cfg parse ((seed, 0, none) ∷ []) 1 0 first_run seed

no_deadlock_example : Runs show ascii_only cfg begun ⊎ Over show ascii_only cfg begun
no_deadlock_example =
    no_deadlock show ascii_only cfg time_out [] parse none ((seed, 0, none) ∷ []) 1 0 first_run

-- The seed answers, and tells of one other peer.
abbrev reply : Reply
reply = record {
  version = record {
    protocol_version = pos 70016;
    services = 9;
    user_agent = codes "/Satoshi:29.0.0/";
    start_height = pos 900000;
    latency_ms = 40;
  };
  discovered = other ∷ [];
  headers = [];
}

abbrev told_of : System
told_of = record {
  shared = record begun.shared {
    nodes = insert_node seed (reached_node show ascii_only cfg (codes "now") (seed, 0) reply) [];
  };
  workers = record { onion_pool = false; pc = Pc.expanding (seed, 0) (other ∷ []) } ∷ [];
}

second_run : Reach show ascii_only cfg begin told_of
unfolding probe_with_retries retry_loop should_retry has_budget
second_run =
    next first_run
      (act [] _ [] refl (Act.answered (λ n. Probe.reached reply) reply (codes "now") refl refl))

other-IsTold : IsTold (other ∷ []) other
unfolding has_seen peer_eq ip_eq list_eq
other-IsTold = refl

crawl_ends_example :
    steps second_run
    ≤ (length begin.workers + 5)
        * (length begin.shared.frontier.clearnet + length begin.shared.frontier.onion + 1)
      + (length begin.workers + 2) * length begin.workers
      + 2 * spurious_wakes second_run
unfolding second_run first_run
crawl_ends_example =
    crawl_ends show ascii_only cfg parse none ((seed, 0, none) ∷ []) 1 0 (other ∷ []) second_run
      (other-IsTold, tt)

-- The same crawl with a cap of one node.
abbrev capped_cfg : CrawlConfig
capped_cfg = record cfg { max_nodes = 1 }

capped_run : Reach show ascii_only capped_cfg begin begun
unfolding start plant_seeds plant push_task pools resume next_task has_seen at_cap is_onion
capped_run = next (next here (act [] _ [] refl (Act.take refl))) (act [] _ [] refl (Act.dial refl))

nodes_capped_example :
    length begun.shared.nodes ≤ max (length begin.shared.nodes) (1 + length begin.workers - 1)
nodes_capped_example =
    nodes_capped show ascii_only capped_cfg parse none ((seed, 0, none) ∷ []) 1 0 (λ e. cc)
      capped_run
