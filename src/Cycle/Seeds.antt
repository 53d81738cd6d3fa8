-- ===== src/Cycle/Seeds.antt =====
-- The seeds of a cycle (src/main.rs: run_cycle up to the crawl, parse_seed): our own node's placeholder and
-- peers, the known-good nodes of the store, and the seeds of the command line. Peer::parse, the text of
-- a peer and the DNS resolver are parameters.
pub mod Begins
use bip110_crawler.Common.{
  ℕ, Bool, true, false, not, ◌||◌, List, [], ◌∷◌, ◌++◌, Option, none, some, if◌then◌else◌, ◌==◌,
  ltb, Text, codes, list_eq, contains, Result, ok, err, ◌>>=◌, unresolved, no_seeds, map,
}
use bip110_crawler.Node.{NodeInfo, Edge, Rule}
use bip110_crawler.Node.UserAgent.{classify_user_agent, assess_bip110}
use bip110_crawler.P2p.Peer.{IpAddr, Peer, v4, clearnet, onion}
use bip110_crawler.Rpc.Signalling.{SignalStats}
use bip110_crawler.Rpc.Replies.{NetworkInfo, RpcPeer}
use bip110_crawler.Crawler.System.Start.{Seed}
use bip110_crawler.Db.Report.{OwnNode}

-- What our own node answers before the crawl.
pub record Answers : Type 0 where
  pub network_info : Result NetworkInfo
  pub peer_info : Result (List RpcPeer)
  pub signalling : Result (SignalStats × List ℕ)

pub record Gathered : Type 0 where
  pub own_node : Option OwnNode
  pub own_label : Text
  pub own_edges : List Edge
  pub local_addr : Option Text
  pub signalling : Option SignalStats
  pub seeds : List Seed

-- 127.0.0.1:0
abbrev pub placeholder_peer : Peer
placeholder_peer = clearnet (v4 (127 ∷ 0 ∷ 0 ∷ 1 ∷ [])) 0

abbrev pub or_no_peers : Result (List RpcPeer) → List RpcPeer
or_no_peers (ok peers) = peers
or_no_peers (err e) = []

unfoldable pub asked_signalling : ℕ → Result (SignalStats × List ℕ) → Option SignalStats
asked_signalling window (err e) = none
asked_signalling window (ok (s, heights)) = if ltb 0 window then some s else none

-- A clearnet peer at port 0 is not crawled.
unfoldable pub is_crawlable : Seed → Bool
is_crawlable (clearnet ip port, depth, pre) = not (port == 0)
is_crawlable (onion host port, depth, pre) = true

unfoldable pub has_real_seed : List Seed → Bool
unfolding is_crawlable
has_real_seed [] = false
has_real_seed (s ∷ seeds) = is_crawlable s || has_real_seed seeds

unfoldable pub has_text : Text → List Text → Bool
has_text t [] = false
has_text t (u ∷ ts) = list_eq u t || has_text t ts

module _ (lower_other : ℕ → Text) (show : Peer → Text) (parse : Text → ℕ → Option Peer) where
  unfoldable pub rpc_record : List Rule → RpcPeer → NodeInfo
  rpc_record rules p =
      let (implementation, version) = classify_user_agent lower_other p.subver in
      record {
        addr = show p.peer;
        depth = 1;
        protocol_version = p.version;
        user_agent = p.subver;
        services = 0;
        start_height = p.height;
        chain_hash = [];
        handshaked = false;
        implementation = implementation;
        version = version;
        bip110 = assess_bip110 lower_other p.subver rules;
        first_seen = [];
        last_seen = [];
        times_seen = 0;
        online = false;
        latency_ms = none;
      }

  unfoldable pub rpc_seeds : List Rule → List RpcPeer → List Seed
  unfolding rpc_record
  rpc_seeds rules [] = []
  rpc_seeds rules (p ∷ peers) = (p.peer, 1, some (rpc_record rules p)) ∷ rpc_seeds rules peers

  unfoldable pub rpc_edges : Text → List RpcPeer → List Edge
  rpc_edges own_label [] = []
  rpc_edges own_label (p ∷ peers) =
      record { from = own_label; to = show p.peer } ∷ rpc_edges own_label peers

  -- Without RPC there is nothing but a label.
  unfoldable pub ask_node : List Rule → Text → ℕ → Option Answers → Result Gathered
  unfolding rpc_seeds rpc_edges asked_signalling
  ask_node rules network window none = ok (record {
    own_node = none;
    own_label = codes "self";
    own_edges = [];
    local_addr = none;
    signalling = none;
    seeds = [];
  })
  ask_node rules network window (some a) = a.network_info >>= λ i.
      (let peers = or_no_peers a.peer_info in
        let own_label = codes "self (" ++ (i.subversion ++ codes ")") in
        ok (record {
          own_node = some (record {
            addr = own_label;
            version = i.version;
            subversion = i.subversion;
            implementation = (classify_user_agent lower_other i.subversion).0;
            network = network;
          });
          own_label = own_label;
          own_edges = rpc_edges own_label peers;
          local_addr = i.local_addr;
          signalling = asked_signalling window a.signalling;
          seeds = (placeholder_peer, 0, none) ∷ rpc_seeds rules peers;
        }))

  -- The known-good nodes that are no seed yet.
  unfoldable pub reseed : ℕ → List Text → List Text → List Seed
  unfolding has_text
  reseed port have [] = []
  reseed port have (addr ∷ known) =
      let rest = reseed port have known in
      if has_text addr have
      then rest
      else elim (parse addr port) [ none ↦ rest | some peer ↦ (peer, 1, none) ∷ rest ]

  abbrev texts_of : List Seed → List Text
  texts_of seeds = map (λ (s : Seed). show s.0) seeds

  module _ (resolve : Text → Option (List (IpAddr × ℕ))) (show_port : ℕ → Text) where
    -- A peer's text, or a host name whose first address is taken.
    unfoldable pub parse_seed : Text → ℕ → Result Peer
    parse_seed s port = elim (parse s port) [
      | some peer ↦ ok peer
      | none ↦
          let with_port =
            if contains (codes ":") s then s else s ++ (codes ":" ++ show_port port) in
          elim (resolve with_port) [
            | none ↦ err unresolved
            | some addrs ↦ elim addrs [ [] ↦ err unresolved | a ∷ more ↦ ok (clearnet a.0 a.1) ]
          ]
    ]

    unfoldable pub cli_seeds : ℕ → List Text → Result (List Seed)
    unfolding parse_seed
    cli_seeds port [] = ok []
    cli_seeds port (s ∷ args) =
        parse_seed s port >>= λ peer. (cli_seeds port args >>= λ rest. ok ((peer, 0, none) ∷ rest))

    -- `known` is none without a database, or if it cannot be read.
    unfoldable pub gather_seeds :
        List Rule → Text → ℕ → ℕ → Option Answers → Option (List Text) → List Text → Result Gathered
    unfolding ask_node reseed cli_seeds has_real_seed
    gather_seeds rules network window port answers known args =
        ask_node rules network window answers >>= λ g.
        (let added : List Seed = elim known [
          | none ↦ []
          | some ks ↦ reseed port (texts_of g.seeds) ks
        ] in
          cli_seeds port args >>= λ cli.
          (let seeds = g.seeds ++ (added ++ cli) in
            if has_real_seed seeds then ok (record g { seeds = seeds }) else err no_seeds))
