-- ===== src/Crawler/System/Start.antt =====
-- How a crawl begins (src/crawler.rs: `crawl`): restored state, seeds, and the two worker pools.
pub mod Begin
pub mod Planted
use bip110_crawler.Common.{
  ℕ, Bool, true, false, not, ◌&&◌, List, [], ◌∷◌, ◌++◌, Option, none, some, if◌then◌else◌,
  replicate, max, Text,
}
use mathlib.Core.List.{reverse}
use bip110_crawler.P2p.Peer.{Peer, is_onion}
use bip110_crawler.Node.{NodeInfo, Edge}
use bip110_crawler.Crawler.{Task, Frontier, Shared}
use bip110_crawler.Crawler.Worker.{has_seen, insert_node}
use bip110_crawler.Crawler.System.{Worker, System, polling}

abbrev pub empty_shared : Shared
empty_shared = record {
  frontier = record { clearnet = []; onion = []; active = 0 };
  seen = [];
  nodes = [];
  edges = [];
}

-- `seen.insert`
unfoldable pub see : Peer → List Peer → List Peer
see p seen = if has_seen p seen then seen else p ∷ seen

-- Push a task on the stack of its pool.
unfoldable pub push_task : Task → Frontier → Frontier
push_task (p, depth) f =
    if is_onion p
    then record f { onion = (p, depth) ∷ f.onion }
    else record f { clearnet = (p, depth) ∷ f.clearnet }

-- A saved crawl (src/state.rs): pending work, nodes and edges.
pub record CrawlState : Type 0 where
  pub frontier : List (Text × ℕ)
  pub nodes : List NodeInfo
  pub edges : List Edge

unfoldable pub restore_task : Bool → Peer → ℕ → Shared → Shared
restore_task tor p depth s =
    if is_onion p && not tor
    then s
    else record s { seen = see p s.seen; frontier = push_task (p, depth) s.frontier }

-- `parse` is `Peer::parse` with the network's default port.
module _ (parse : Text → Option Peer) where
  unfoldable pub restore_nodes : List NodeInfo → Shared → Shared
  restore_nodes [] s = s
  restore_nodes (n ∷ nodes) s = restore_nodes nodes (elim (parse n.addr) [
    | none ↦ s
    | some p ↦ record s { seen = see p s.seen; nodes = insert_node p n s.nodes }
  ])

  unfoldable pub restore_frontier : Bool → List (Text × ℕ) → Shared → Shared
  unfolding restore_task
  restore_frontier tor [] s = s
  restore_frontier tor ((text, depth) ∷ tasks) s =
      restore_frontier tor tasks
        (elim (parse text) [ none ↦ s | some p ↦ restore_task tor p depth s ])

  unfoldable pub resume : Bool → Option CrawlState → Shared → Shared
  unfolding restore_nodes restore_frontier
  resume tor none s = s
  resume tor (some st) s =
      let s' = restore_frontier tor st.frontier (restore_nodes st.nodes s) in
      record s' { edges = reverse st.edges ++ s'.edges }

-- A seed: a peer, its depth, and what is known of it beforehand.
abbrev pub Seed : Type 0
Seed = Peer × ℕ × Option NodeInfo

unfoldable pub plant : Bool → Peer → ℕ → Option NodeInfo → Shared → Shared
plant tor p depth pre s =
    if is_onion p && not tor then s else if has_seen p s.seen then s else record s {
      seen = p ∷ s.seen;
      nodes = elim pre [ none ↦ s.nodes | some info ↦ insert_node p info s.nodes ];
      frontier = push_task (p, depth) s.frontier;
    }

unfoldable pub plant_seeds : Bool → List Seed → Shared → Shared
unfolding plant
plant_seeds tor [] s = s
plant_seeds tor ((p, depth, pre) ∷ seeds) s = plant_seeds tor seeds (plant tor p depth pre s)

-- At least one worker to a pool, and an onion pool only with a proxy.
unfoldable pub pools : Bool → ℕ → ℕ → List Worker
pools tor threads tor_threads =
    replicate (max threads 1) (record { onion_pool = false; pc = polling })
    ++ (if tor
        then replicate (max tor_threads 1) (record { onion_pool = true; pc = polling })
        else [])

-- The state in which the workers are spawned.
unfoldable pub start : (Text → Option Peer) → Bool → Option CrawlState → List Seed → ℕ → ℕ → System
unfolding pools plant_seeds resume
start parse tor saved seeds threads tor_threads = record {
  shared = plant_seeds tor seeds (resume parse tor saved empty_shared);
  workers = pools tor threads tor_threads;
}
