-- ===== src/Crawler.antt =====
-- src/crawler.rs: the crawl, as what one worker does between two locks, and all workers together.
pub mod Tasks
pub mod Worker
pub mod System
use bip110_crawler.Common.{ℕ, Bool, List, Option, Text, Bytes, ℤ}
use bip110_crawler.P2p.Peer.{Peer}
use bip110_crawler.P2p.Headers.{PeerHeader}
use bip110_crawler.Node.{NodeInfo, Edge, Rule}

-- A peer to probe, and the depth at which it was reached.
abbrev pub Task : Type 0
Task = Peer × ℕ

-- `tor` stands for `tor_proxy.is_some()`; the timeouts and the network belong to the probe.
pub record CrawlConfig : Type 0 where
  pub max_depth : ℕ
  pub max_nodes : ℕ
  pub retries : ℕ
  pub edges_per_node : ℕ
  pub tor : Bool
  pub rules : List Rule
  pub locator : List (Bytes × ℤ)
  pub chain_ref_height : ℤ

-- Two stacks under one mutex, each with its last entry first; `active` counts busy workers.
pub record Frontier : Type 0 where
  pub clearnet : List Task
  pub onion : List Task
  pub active : ℕ

-- `seen` and `nodes` are a hash set and a hash map; here lists; `seen` and `edges` have their newest entry first.
pub record Shared : Type 0 where
  pub frontier : Frontier
  pub seen : List Peer
  pub nodes : List (Peer × NodeInfo)
  pub edges : List Edge

-- What a successful handshake tells of a peer (`PeerVersion` of src/p2p.rs).
pub record PeerVersion : Type 0 where
  pub protocol_version : ℤ
  pub services : ℕ
  pub user_agent : Text
  pub start_height : ℤ
  pub latency_ms : ℕ

-- What `probe_peer` returns.
pub record Reply : Type 0 where
  pub version : PeerVersion
  pub discovered : List Peer
  pub headers : List PeerHeader
