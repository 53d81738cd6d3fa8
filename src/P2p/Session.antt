-- ===== src/P2p/Session.antt =====
-- One probe of a peer (src/p2p.rs: `probe_peer`). A stream is what the other side sends; what is sent
-- to it is collected, and a write that fails ends the probe as a failed read does. `connected` is
-- the outcome of the TCP connection, `latency` the time of the handshake in milliseconds, and
-- `rounds` how many rounds of the collecting loop the clock allows.
pub mod Collects
pub mod Outcome
use bip110_crawler.Common.{
  ℕ, zero, suc, ◌+◌, ◌-◌, ◌^◌, min, max, Bool, true, false, not, ◌&&◌, List, [], ◌∷◌, ◌++◌, Option,
  none, some, if◌then◌else◌, leb, length, list_eq, Text, codes, Bytes, Result, ok, err, ◌>>=◌,
  Error, pos,
}
use Error.{no_version, needs_proxy}
use bip110_crawler.Crawler.Tasks.{is_empty}
use bip110_crawler.P2p.Peer.{IpAddr, Peer, is_onion}
use bip110_crawler.P2p.Frame.{RawMessage, read_message, build_message}
use bip110_crawler.P2p.Headers.{PeerHeader, build_getheaders, parse_headers}
use bip110_crawler.P2p.Addr.{parse_addr, parse_addrv2}
use bip110_crawler.P2p.Version.{
  NetworkParams, unspecified, build_version_payload, parse_version_payload,
}
use bip110_crawler.P2p.Socks.{socks5_connect}
use bip110_crawler.Crawler.{PeerVersion, Reply}

-- The state of the handshake, and of the collection behind it.
pub record Handshake : Type 0 where
  pub version : Option PeerVersion
  pub got_verack : Bool
  pub sent : Bytes
  pub stream : Bytes

pub record Collection : Type 0 where
  pub discovered : List Peer
  pub headers : List PeerHeader
  pub got_headers : Bool
  pub sent : Bytes
  pub stream : Bytes

unfoldable pub is_some {ℓ} : {A : Type ℓ} → Option A → Bool
is_some none = false
is_some (some a) = true

-- Connect and read timeouts and the collecting window, in seconds: Tor gets more time.
unfoldable pub timeouts : Peer → ℕ → ℕ → ℕ → ℕ × ℕ × ℕ
timeouts peer connect io collect =
    if is_onion peer then (max connect 20, max io 20, max collect 8) else (connect, io, collect)

module _ (sha256 sha3_256 : Bytes → Bytes) (lossy : Bytes → Text) (net : NetworkParams) where
  abbrev pub frame : Text → Bytes → Bytes
  frame command payload = build_message sha256 net.magic command payload

  -- The `match` of the handshake loop.
  unfoldable pub on_message : RawMessage → Handshake → Result Handshake
  on_message msg h =
      if list_eq msg.command (codes "version")
      then (parse_version_payload lossy msg.payload >>= λ v. ok (record h {
        version = some v;
        sent = h.sent ++ frame (codes "sendaddrv2") [] ++ frame (codes "verack") [];
      }))
      else if list_eq msg.command (codes "verack")
      then ok (record h { got_verack = true })
      else if list_eq msg.command (codes "ping")
      then ok (record h { sent = h.sent ++ frame (codes "pong") msg.payload })
      else ok h

  unfoldable pub handshake_loop : ℕ → Handshake → Result Handshake
  unfolding on_message
  handshake_loop zero h = ok h
  handshake_loop (suc left) h = read_message h.stream net.magic >>= λ (msg, stream).
      (on_message msg (record h { stream = stream }) >>= λ h'.
      if is_some h'.version && h'.got_verack then ok h' else handshake_loop left h')

  -- The `match` of the collecting loop.
  unfoldable pub collect_message : RawMessage → Collection → Collection
  collect_message msg c =
      if list_eq msg.command (codes "addr")
      then record c { discovered = c.discovered ++ parse_addr msg.payload net.default_port }
      else if list_eq msg.command (codes "addrv2")
      then record c {
        discovered = c.discovered ++ parse_addrv2 sha3_256 msg.payload net.default_port;
      }
      else if list_eq msg.command (codes "headers")
      then record c { headers = parse_headers sha256 msg.payload; got_headers = true }
      else if list_eq msg.command (codes "ping")
      then record c { sent = c.sent ++ frame (codes "pong") msg.payload }
      else c

  unfoldable pub collect_loop : ℕ → Collection → Collection
  unfolding collect_message
  collect_loop zero c = c
  collect_loop (suc rounds) c = elim (read_message c.stream net.magic) [
    | err _ ↦ c
    | ok (msg, stream) ↦
        let c' = collect_message msg (record c { stream = stream }) in
        if leb 1000 (length c'.discovered) && c'.got_headers then c' else collect_loop rounds c'
  ]

  -- The stream to the peer, and the address that our `version` message names.
  unfoldable pub connect_to : Peer → Bool → Result Bytes → Result (Bytes × IpAddr × ℕ)
  connect_to (Peer.clearnet ip port) tor connected = connected >>= λ stream. ok (stream, ip, port)
  connect_to (Peer.onion host port) tor connected =
      if tor
      then (connected >>= λ proxy.
          (socks5_connect host port proxy >>= λ (_, stream). ok (stream, unspecified, port)))
      else err needs_proxy

  unfoldable pub collect : ℕ → ℕ → List Bytes → PeerVersion → Handshake → Reply
  unfolding collect_loop
  collect rounds latency locator version h =
      let want_headers = not (is_empty locator) in
      let c = collect_loop rounds (record {
        discovered = [];
        headers = [];
        got_headers = not want_headers;
        sent =
            h.sent
            ++ frame (codes "getaddr") []
            ++ (if want_headers then build_getheaders sha256 net.magic locator else []);
        stream = h.stream;
      }) in
      record {
        version = record version { latency_ms = min latency (2 ^ 32 - 1) };
        discovered = c.discovered;
        headers = c.headers;
      }

  unfoldable pub probe_peer : Peer → Bool → Result Bytes → ℕ → ℕ → ℕ → ℕ → List Bytes → Result Reply
  unfolding connect_to collect handshake_loop
  probe_peer peer tor connected now nonce latency rounds locator =
      connect_to peer tor connected >>= λ (stream, recv_ip, recv_port).
      (handshake_loop 20 (record {
        version = none;
        got_verack = false;
        sent = frame (codes "version") (build_version_payload now nonce recv_ip recv_port (pos 0));
        stream = stream;
      })
        >>= λ h. elim h.version [
          | none ↦ err no_version
          | some v ↦ ok (collect rounds latency locator v h)
        ])
