-- ===== src/Crawler/System/Save.antt =====
-- Saving a crawl (src/crawler.rs: `save_state`). The stacks are written with their first entry first.
pub mod Resumes
use bip110_crawler.Common.{ℕ, not, List, [], ◌∷◌, ◌++◌, if◌then◌else◌, list_eq, Text, codes}
use mathlib.Core.List.{reverse}
use bip110_crawler.P2p.Peer.{Peer}
use bip110_crawler.Node.{NodeInfo}
use bip110_crawler.Crawler.{Task, Shared}
use bip110_crawler.Crawler.System.Start.{CrawlState}

-- The address that stands for our own node.
abbrev pub own_node : Text
own_node = codes "127.0.0.1:0"

-- `show` is the text of a peer.
module _ (show : Peer → Text) where
  unfoldable pub saved_tasks : List Task → List (Text × ℕ)
  saved_tasks [] = []
  saved_tasks ((p, depth) ∷ tasks) =
      if not (list_eq (show p) own_node)
      then (show p, depth) ∷ saved_tasks tasks
      else saved_tasks tasks

  unfoldable pub saved_nodes : List (Peer × NodeInfo) → List NodeInfo
  saved_nodes [] = []
  saved_nodes ((p, n) ∷ nodes) =
      if not (list_eq n.addr own_node) then n ∷ saved_nodes nodes else saved_nodes nodes

  unfoldable pub save_state : Shared → CrawlState
  unfolding saved_tasks saved_nodes
  save_state s = record {
    frontier = saved_tasks (reverse s.frontier.clearnet ++ reverse s.frontier.onion);
    nodes = saved_nodes s.nodes;
    edges = reverse s.edges;
  }
