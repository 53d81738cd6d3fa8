-- ===== src/Examples/Session.antt =====
-- A probe at a concrete stream (src/p2p.rs).
use bip110_crawler.Common.{
  ◌≡◌, refl, false, [], ◌∷◌, ◌++◌, replicate, Bytes, codes, ok, pos, to_le_bytes, from_le_bytes,
  slice, list_eq, take_while, arith,
}
use bip110_crawler.P2p.Wire.{write_varint, read_varint, read_array, after_first}
use bip110_crawler.P2p.Frame.{read_message, read_exact, build_message, checksum, command_field}
use bip110_crawler.P2p.Session.{
  probe_peer, connect_to, handshake_loop, on_message, collect, collect_loop, collect_message,
  is_some,
}
use bip110_crawler.P2p.Session.Outcome.{Answers, probe_peer-Answers}
use bip110_crawler.Crawler.{Reply}
use bip110_crawler.Crawler.Tasks.{is_empty}
use bip110_crawler.P2p.Peer.{v4, Peer}
use bip110_crawler.P2p.Version.{NetworkParams, parse_version_payload}
use bip110_crawler.P2p.Version.Fields.{layout, parse_version_payload-layout}
use bip110_crawler.P2p.Socks.{greeting, connect_request, socks5_connect}
use bip110_crawler.P2p.Socks.Connects.{ipv4, socks5_connect-reply}
use bip110_crawler.Examples.Wire.{sha256, mainnet}

parse_version_payload-layout_example :
    parse_version_payload
      (λ b. b)
      (layout (pos 70016) 9 (replicate 68 0) (codes "/x/") (pos 7) (1 ∷ []))
    ≡ ok (record {
      protocol_version = pos 70016;
      services = 9;
      user_agent = codes "/x/";
      start_height = pos 7;
      latency_ms = 0;
    })
unfolding write_varint
parse_version_payload-layout_example =
    parse_version_payload-layout (λ b. b) (pos 70016) 9 (replicate 68 0) (codes "/x/") (pos 7)
      (1 ∷ []) (omega arith) (omega arith) refl (omega arith) (omega arith)

socks5_connect-reply_example :
    socks5_connect (codes "x.onion") 8333 (
      (0x05 ∷ 0x00 ∷ []) ++ ((5 ∷ 0x00 ∷ 0 ∷ 0x01 ∷ []) ++ ([] ++ (replicate 6 0 ++ (1 ∷ 2 ∷ [])))))
    ≡ ok (greeting ++ connect_request (codes "x.onion") 8333, 1 ∷ 2 ∷ [])
socks5_connect-reply_example =
    socks5_connect-reply (codes "x.onion") 8333 5 0 (replicate 6 0) (1 ∷ 2 ∷ []) (omega arith) ipv4
      refl

abbrev net : NetworkParams
net = record { magic = mainnet; default_port = 8333; name = codes "main" }

abbrev target : Peer
target = Peer.clearnet (v4 (1 ∷ 2 ∷ 3 ∷ 4 ∷ [])) 8333

-- A peer that sends its version and its verack, and then nothing.
abbrev from_peer : Bytes
from_peer =
    build_message sha256 mainnet (codes "version")
      (layout (pos 70016) 9 (replicate 68 0) (codes "/x/") (pos 7) [])
    ++ build_message sha256 mainnet (codes "verack") []

abbrev reply : Reply
reply = record {
  version = record {
    protocol_version = pos 70016;
    services = 9;
    user_agent = codes "/x/";
    start_height = pos 7;
    latency_ms = 40;
  };
  discovered = [];
  headers = [];
}

probed : probe_peer sha256 sha256 (λ b. b) net target false (ok from_peer) 0 0 40 5 [] ≡ ok reply
unfolding probe_peer connect_to handshake_loop on_message collect collect_loop collect_message
    read_message read_exact build_message command_field checksum write_varint read_varint read_array
    slice to_le_bytes from_le_bytes list_eq take_while is_some is_empty parse_version_payload
    after_first
probed = refl

probe_peer-Answers_example :
    Answers sha256 sha256 (λ b. b) net target false (ok from_peer) 5 [] reply
probe_peer-Answers_example =
    probe_peer-Answers sha256 sha256 (λ b. b) net target false (ok from_peer) 0 0 40 5 [] reply
      probed
