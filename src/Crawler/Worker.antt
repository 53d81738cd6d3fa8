-- ===== src/Crawler/Worker.antt =====
-- What a worker does with one task (src/crawler.rs: `worker`, `worth_retrying`).
-- A probe is given by its outcome, and the time stamps by `now`.
pub mod Equality
pub mod Retry
pub mod Expand
use bip110_crawler.Common.{
  ℕ, zero, suc, ◌+◌, Bool, true, false, not, ◌&&◌, ◌||◌, List, [], ◌∷◌, ◌++◌, none, some,
  if◌then◌else◌, leb, ltb, ◌==◌, list_eq, Text, codes, pos,
}
use bip110_crawler.P2p.Peer.{IpAddr, v4, v6, Peer, is_onion}
use bip110_crawler.P2p.Headers.{peer_hash_at}
use bip110_crawler.Node.{NodeInfo, Edge, unknown}
use bip110_crawler.Node.UserAgent.{classify_user_agent, assess_bip110}
use bip110_crawler.Crawler.{Task, CrawlConfig, Reply}

-- A cause in an error's chain: an I/O error by its kind, or any other.
pub data Cause : Type 0 where
  timed_out would_block other_io not_io : Cause

-- The first I/O error of the chain decides; without one a retry is allowed.
unfoldable pub worth_retrying : List Cause → Bool
worth_retrying [] = true
worth_retrying (Cause.timed_out ∷ chain) = true
worth_retrying (Cause.would_block ∷ chain) = true
worth_retrying (Cause.other_io ∷ chain) = false
worth_retrying (Cause.not_io ∷ chain) = worth_retrying chain

pub data Probe : Type 0 where
  reached : Reply → Probe
  failed : List Cause → Probe

-- `matches!(&probe, Err(e) if worth_retrying(e))`
unfoldable pub should_retry : Probe → Bool
unfolding worth_retrying
should_retry (Probe.reached r) = false
should_retry (Probe.failed chain) = worth_retrying chain

-- The retry loop: `attempt n` is the outcome of the n-th probe, the first being `attempt 0`; the
-- result is the last outcome and the number of the attempt that gave it.
unfoldable pub retry_loop : ℕ → (ℕ → Probe) → ℕ → Probe × ℕ
unfolding should_retry
retry_loop zero attempt n = (attempt n, n)
retry_loop (suc left) attempt n =
    let again = retry_loop left attempt (n + 1) in
    if should_retry (attempt n) then again else (attempt n, n)

unfoldable pub probe_with_retries : CrawlConfig → (ℕ → Probe) → Probe
unfolding retry_loop
probe_with_retries cfg attempt = (retry_loop cfg.retries attempt 0).0

unfoldable pub ip_eq : IpAddr → IpAddr → Bool
ip_eq (v4 a) (v4 b) = list_eq a b
ip_eq (v6 a) (v6 b) = list_eq a b
ip_eq (v4 a) (v6 b) = false
ip_eq (v6 a) (v4 b) = false

unfoldable pub peer_eq : Peer → Peer → Bool
unfolding ip_eq
peer_eq (Peer.clearnet a p) (Peer.clearnet b q) = ip_eq a b && p == q
peer_eq (Peer.onion a p) (Peer.onion b q) = list_eq a b && p == q
peer_eq (Peer.clearnet a p) (Peer.onion b q) = false
peer_eq (Peer.onion a p) (Peer.clearnet b q) = false

unfoldable pub has_seen : Peer → List Peer → Bool
unfolding peer_eq
has_seen p [] = false
has_seen p (q ∷ seen) = peer_eq q p || has_seen p seen

-- `nodes.insert`: the record of a peer that is there already is replaced.
unfoldable pub insert_node : Peer → NodeInfo → List (Peer × NodeInfo) → List (Peer × NodeInfo)
unfolding peer_eq
insert_node p info [] = (p, info) ∷ []
insert_node p info ((q, old) ∷ nodes) =
    if peer_eq q p then (p, info) ∷ nodes else (q, old) ∷ insert_node p info nodes

-- `nodes.entry(p).or_insert`
unfoldable pub or_insert_node : Peer → NodeInfo → List (Peer × NodeInfo) → List (Peer × NodeInfo)
unfolding peer_eq
or_insert_node p info [] = (p, info) ∷ []
or_insert_node p info ((q, old) ∷ nodes) =
    if peer_eq q p then (q, old) ∷ nodes else (q, old) ∷ or_insert_node p info nodes

-- The cap on nodes: 0 is unlimited.
unfoldable pub at_cap : CrawlConfig → ℕ → Bool
at_cap cfg count = not (cfg.max_nodes == 0) && leb cfg.max_nodes count

unfoldable pub has_budget : CrawlConfig → ℕ → Bool
has_budget cfg depth = cfg.max_depth == 0 || ltb depth cfg.max_depth

-- The variables of the loop over the discovered peers.
pub record Expansion : Type 0 where
  pub seen : List Peer
  pub edges : List Edge
  pub recorded : ℕ
  pub new_clearnet : List Task
  pub new_onion : List Task

-- `edge_cap` is usize::MAX for 0, which no loop reaches.
unfoldable pub edge_cap_reached : CrawlConfig → ℕ → Bool
edge_cap_reached cfg recorded = not (cfg.edges_per_node == 0) && leb cfg.edges_per_node recorded

unfoldable pub enqueue : ℕ → Peer → Expansion → Expansion
enqueue depth child x =
    if has_seen child x.seen
    then x
    else if is_onion child
    then record x { seen = child ∷ x.seen; new_onion = x.new_onion ++ (child, depth + 1) ∷ [] }
    else record x {
      seen = child ∷ x.seen;
      new_clearnet = x.new_clearnet ++ (child, depth + 1) ∷ [];
    }

-- `show` is the text of a peer (`Peer`'s Display, which formats with the standard library).
module _ (show : Peer → Text) where
  unfoldable pub record_edge : CrawlConfig → Peer → Peer → Expansion → Expansion
  unfolding edge_cap_reached
  record_edge cfg addr child x = if edge_cap_reached cfg x.recorded then x else record x {
    edges = record { from = show addr; to = show child } ∷ x.edges;
    recorded = x.recorded + 1;
  }

  unfoldable pub expand_child : CrawlConfig → Peer → ℕ → Peer → Expansion → Expansion
  unfolding record_edge enqueue
  expand_child cfg addr depth child x =
      if is_onion child && not cfg.tor
      then x
      else enqueue depth child (record_edge cfg addr child x)

  unfoldable pub expand_loop : CrawlConfig → Peer → ℕ → List Peer → Expansion → Expansion
  unfolding expand_child
  expand_loop cfg addr depth [] x = x
  expand_loop cfg addr depth (child ∷ discovered) x =
      expand_loop cfg addr depth discovered (expand_child cfg addr depth child x)

  -- The children of one peer, from what is seen and recorded so far.
  unfoldable pub expand : CrawlConfig → Task → List Peer → List Peer → List Edge → Expansion
  unfolding expand_loop
  expand cfg (addr, depth) discovered seen edges =
      expand_loop cfg addr depth discovered
        (record { seen = seen; edges = edges; recorded = 0; new_clearnet = []; new_onion = [] })

  -- The record of a peer that could not be reached.
  unfoldable pub unreachable_node : Task → NodeInfo
  unreachable_node (addr, depth) = record {
    addr = show addr;
    depth = depth;
    protocol_version = pos 0;
    user_agent = [];
    services = 0;
    start_height = pos 0;
    chain_hash = [];
    handshaked = false;
    implementation = codes "Unreachable";
    version = [];
    bip110 = unknown;
    first_seen = [];
    last_seen = [];
    times_seen = 0;
    online = false;
    latency_ms = none;
  }

  -- The record of a peer that answered, stamped `now`.
  unfoldable pub reached_node : (ℕ → Text) → CrawlConfig → Text → Task → Reply → NodeInfo
  reached_node lower_other cfg now (addr, depth) r = record {
    addr = show addr;
    depth = depth;
    protocol_version = r.version.protocol_version;
    user_agent = r.version.user_agent;
    services = r.version.services;
    start_height = r.version.start_height;
    chain_hash = peer_hash_at r.headers cfg.locator cfg.chain_ref_height;
    handshaked = true;
    implementation = (classify_user_agent lower_other r.version.user_agent).0;
    version = (classify_user_agent lower_other r.version.user_agent).1;
    bip110 = assess_bip110 lower_other r.version.user_agent cfg.rules;
    first_seen = now;
    last_seen = now;
    times_seen = 0;
    online = true;
    latency_ms = some r.version.latency_ms;
  }
