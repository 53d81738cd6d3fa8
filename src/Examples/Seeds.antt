-- ===== src/Examples/Seeds.antt =====
-- The seeds of a cycle, and what its crawl starts with (src/main.rs: run_cycle).
use bip110_crawler.Common.{
  ℕ, ◌≡◌, refl, true, List, [], ◌∷◌, ◌++◌, Option, none, some, Text, codes, pos, list_eq, contains,
  if◌then◌else◌, ok, err, null_value,
}
use bip110_crawler.P2p.Peer.{v4, IpAddr, Peer}
use bip110_crawler.Node.UserAgent.{classify_user_agent}
use bip110_crawler.Rpc.Replies.{NetworkInfo, RpcPeer}
use bip110_crawler.Crawler.System.Start.{start}
use bip110_crawler.Cycle.Seeds.{
  Answers, Gathered, placeholder_peer, rpc_record, rpc_seeds, rpc_edges, asked_signalling,
  is_crawlable, has_real_seed, has_text, ask_node, reseed, parse_seed, cli_seeds, gather_seeds,
}
use bip110_crawler.Cycle.Seeds.Begins.{Begins, gather_seeds-Begins}

abbrev ascii_only : ℕ → Text
ascii_only c = c ∷ []

abbrev at : ℕ → Peer
at n = Peer.clearnet (v4 (n ∷ n ∷ n ∷ n ∷ [])) 8333

abbrev show : Peer → Text
show p = codes "peer"

-- One known address, and one host name.
abbrev parse : Text → ℕ → Option Peer
parse t port = if list_eq t (codes "9.9.9.9:8333") then some (at 9) else none

abbrev resolve : Text → Option (List (IpAddr × ℕ))
resolve host = some ((v4 (8 ∷ 8 ∷ 8 ∷ 8 ∷ []), 8333) ∷ [])

abbrev show_port : ℕ → Text
show_port n = codes "8333"

abbrev own : NetworkInfo
own = record {
  version = pos 290000;
  subversion = codes "/Satoshi:29.0.0/";
  services = 9;
  local_addr = none;
}

abbrev direct : RpcPeer
direct = record {
  peer = at 7;
  subver = codes "/Satoshi:28.1.0/";
  version = pos 70016;
  height = pos 900000;
}

abbrev answers : Answers
answers = record {
  network_info = ok own;
  peer_info = ok (direct ∷ []);
  signalling = err null_value;
}

abbrev label : Text
label = codes "self (" ++ (codes "/Satoshi:29.0.0/" ++ codes ")")

abbrev gathered : Gathered
gathered = record {
  own_node = some (record {
    addr = label;
    version = pos 290000;
    subversion = codes "/Satoshi:29.0.0/";
    implementation = (classify_user_agent ascii_only (codes "/Satoshi:29.0.0/")).0;
    network = codes "mainnet";
  });
  own_label = label;
  own_edges = record { from = label; to = codes "peer" } ∷ [];
  local_addr = none;
  signalling = none;
  seeds =
      (placeholder_peer, 0, none)
      ∷ (at 7, 1, some (rpc_record ascii_only show parse [] direct))
      ∷ (at 9, 1, none)
      ∷ (at 8, 0, none)
      ∷ [];
}

gather :
    gather_seeds ascii_only show parse resolve show_port []
      (codes "mainnet")
      2016
      8333
      (some answers)
      (some (codes "9.9.9.9:8333" ∷ []))
      (codes "seed.example" ∷ [])
    ≡ ok gathered
unfolding gather_seeds ask_node rpc_seeds rpc_edges asked_signalling reseed has_text cli_seeds
    parse_seed has_real_seed is_crawlable list_eq contains
gather = refl

gather_seeds-Begins_example :
    Begins ascii_only show parse resolve show_port true 8333
      (some answers)
      (some (codes "9.9.9.9:8333" ∷ []))
      (codes "seed.example" ∷ [])
      (start (λ t. parse t 8333) true none gathered.seeds 4 1).shared.frontier
gather_seeds-Begins_example =
    gather_seeds-Begins ascii_only show parse resolve show_port [] (codes "mainnet") 2016 8333
      (some answers) (some (codes "9.9.9.9:8333" ∷ [])) (codes "seed.example" ∷ []) true 4 1 gather
