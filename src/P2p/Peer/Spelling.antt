-- ===== src/P2p/Peer/Spelling.antt =====
-- The text of a peer and its parser (src/p2p.rs: Peer::parse, Display). The standard library's parser and
-- text of a socket address are parameters.
pub mod RoundTrip
use bip110_crawler.Common.{
  ℕ, List, [], ◌∷◌, ◌++◌, Option, none, some, if◌then◌else◌, ◌==◌, Text, codes, ends_with,
  parse_u16,
}
use bip110_crawler.P2p.Peer.{IpAddr, Peer, clearnet, onion}
use bip110_crawler.Time.{digits}

-- `rsplit_once`: at the last separator.
unfoldable pub rsplit_once : ℕ → Text → Option (Text × Text)
rsplit_once sep [] = none
rsplit_once sep (c ∷ s) = elim (rsplit_once sep s) [
  | some (k, v) ↦ some (c ∷ k, v)
  | none ↦ if c == sep then some ([], s) else none
]

-- An onion host without a port.
unfoldable pub bare_onion : Text → ℕ → Option Peer
bare_onion s default_port =
    if ends_with (codes ".onion") s then some (onion s default_port) else none

-- An onion host with a port, behind the test for a socket address.
unfoldable pub parse_onion : Text → ℕ → Option Peer
unfolding rsplit_once bare_onion
parse_onion s default_port = elim (rsplit_once b':' s) [
  | none ↦ bare_onion s default_port
  | some (host, port) ↦
      if ends_with (codes ".onion") host
      then elim (parse_u16 port) [ some p ↦ some (onion host p) | none ↦ bare_onion s default_port ]
      else bare_onion s default_port
]

module _ (parse_socket : Text → Option (IpAddr × ℕ)) (show_socket : IpAddr → ℕ → Text) where
  unfoldable pub parse_peer : Text → ℕ → Option Peer
  unfolding parse_onion
  parse_peer s default_port = elim (parse_socket s) [
    | some (ip, port) ↦ some (clearnet ip port)
    | none ↦ parse_onion s default_port
  ]

  unfoldable pub show_peer : Peer → Text
  show_peer (clearnet ip port) = show_socket ip port
  show_peer (onion host port) = host ++ (codes ":" ++ digits 20 port)
