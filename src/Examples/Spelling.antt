-- ===== src/Examples/Spelling.antt =====
-- The text of a peer at concrete inputs (src/p2p.rs: Peer::parse, Display).
use bip110_crawler.Common.{
  ℕ, ◌+◌, ◌-◌, ◌≡◌, ◌<◌, ◌^◌, ap, ◌∙◌, refl, false, true, [], ◌∷◌, ◌++◌, Option, none, some, Text,
  Bytes, map, codes, ends_with, arith, ◌==◌, if◌then◌else◌,
}
use bip110_crawler.P2p.Peer.{IpAddr, v4, v6, onion}
use bip110_crawler.P2p.Peer.Spelling.{rsplit_once, parse_peer, show_peer}
use bip110_crawler.P2p.Peer.Spelling.RoundTrip.{
  IsAddress, digits-Reads, rsplit_once-append, parse_peer-show_peer,
}
use bip110_crawler.Time.{digits}

-- A text of a socket address without a colon: the version, the port and the octets, raised.
abbrev raised : Bytes → Text
raised os = map (λ o. o + 100) os

abbrev lowered : Text → Bytes
lowered os = map (λ o. o - 100) os

abbrev show_socket : IpAddr → ℕ → Text
show_socket (v4 octets) port = 1 ∷ raised (port ∷ octets)
show_socket (v6 octets) port = 2 ∷ raised (port ∷ octets)

abbrev read_socket : Text → Option (IpAddr × ℕ)
read_socket (version ∷ port ∷ octets) =
    if version == 1
    then some (v4 (lowered octets), port - 100)
    else some (v6 (lowered octets), port - 100)
read_socket s = none

abbrev parse_socket : Text → Option (IpAddr × ℕ)
parse_socket s = elim (rsplit_once b':' s) [ some x ↦ none | none ↦ read_socket s ]

no_colon : (os : Bytes) → rsplit_once b':' (raised os) ≡ none
unfolding rsplit_once
no_colon [] = refl
no_colon (o ∷ os) = rw (no_colon os) (ground arith)

lowered-raised : (os : Bytes) → lowered (raised os) ≡ os
lowered-raised [] = refl
lowered-raised (o ∷ os) =
    ap (λ r. (o + 100 - 100) ∷ r) (lowered-raised os) ∙ ap (λ x. x ∷ os) (omega arith)

sockets :
    (ip : IpAddr) (port : ℕ)
    → IsAddress ip
    → port < 2 ^ 16
    → parse_socket (show_socket ip port) ≡ some (ip, port)
unfolding rsplit_once
sockets (v4 octets) port h d =
    let away : (port + 100 == b':') ≡ false = ground arith in
    rw (no_colon octets, away)
      (ap (λ os. some (v4 os, port + 100 - 100)) (lowered-raised octets)
        ∙ ap (λ q. some (v4 octets, q)) (omega arith))
sockets (v6 octets) port h d =
    let away : (port + 100 == b':') ≡ false = ground arith in
    rw (no_colon octets, away)
      (ap (λ os. some (v6 os, port + 100 - 100)) (lowered-raised octets)
        ∙ ap (λ q. some (v6 octets, q)) (omega arith))

onions :
    (host : Text) (port : ℕ)
    → ends_with (codes ".onion") host ≡ true
    → port < 2 ^ 16
    → parse_socket (host ++ (codes ":" ++ digits 20 port)) ≡ none
onions host port h d =
    rw
      (
        rsplit_once-append host (digits 20 port) (digits-Reads 19 port (omega arith)).1,
        parse_socket,
      )
      refl

parse_peer-show_peer_example :
    parse_peer parse_socket show_socket
      (show_peer parse_socket show_socket (onion (codes "duckduckgo.onion") 8333))
      18333
    ≡ some (onion (codes "duckduckgo.onion") 8333)
unfolding ends_with
parse_peer-show_peer_example =
    parse_peer-show_peer parse_socket show_socket sockets onions
      (onion (codes "duckduckgo.onion") 8333) 18333 (refl, omega arith)
