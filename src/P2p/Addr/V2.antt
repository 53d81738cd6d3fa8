-- ===== src/P2p/Addr/V2.antt =====
-- The `addrv2` parser (BIP155) against the records of the wire format, honest and hostile (src/p2p.rs).
use bip110_crawler.Common.{
  ℕ, zero, suc, ◌^◌, ◌<◌, ◌≡◌, refl, subst, List, [], ◌∷◌, ◌++◌, length, take, min, Bytes, All,
  arith, Bool-cases, inl, inr, ◌==◌, ◌&&◌, ◌||◌, false, true, codes, sym,
}
use bip110_crawler.P2p.Wire.{write_varint}
use bip110_crawler.P2p.Peer.{v4, v6, Peer, base32_lower, onion_v3_host}
use bip110_crawler.P2p.Addr.{port_or, addrv2_peer, parse_addrv2}
use bip110_crawler.P2p.Addr.Records.{
  Entry, IsEntry, entries, entry_peers, parsed, Stop, parsed-addrv2,
}

module _ (sha3_256 : Bytes → Bytes) (default_port : ℕ) where
  -- Port 0 stands for the default port.
  abbrev pub dialed_port : ℕ → ℕ
  dialed_port zero = default_port
  dialed_port (suc port) = suc port

  -- BIP155: network 1 is IPv4 with 4 bytes, 2 is IPv6 with 16, and 4 is Tor v3 with a public key of 32, whose host
  -- name is the base32 text of the key, two bytes of a checksum and the version 3. No other record is dialed.
  pub data Gives (e : Entry) : List Peer → Type 0 where
    ipv4 :
        e.network ≡ 1
        → length e.addr ≡ 4
        → Gives e (Peer.clearnet (v4 e.addr) (dialed_port e.port) ∷ [])
    ipv6 :
        e.network ≡ 2
        → length e.addr ≡ 16
        → Gives e (Peer.clearnet (v6 e.addr) (dialed_port e.port) ∷ [])
    tor_v3 :
        e.network ≡ 4
        → length e.addr ≡ 32
        → Gives e (
            Peer.onion
              (base32_lower (
                  e.addr
                  ++ take 2 (sha3_256 (codes ".onion checksum" ++ e.addr ++ 3 ∷ []))
                  ++ 3 ∷ [])
                ++ codes ".onion")
              (dialed_port e.port)
            ∷ [])
    other :
        ((e.network == 1 && length e.addr == 4)
            || ((e.network == 2 && length e.addr == 16) || (e.network == 4 && length e.addr == 32)))
          ≡ false
        → Gives e []

  -- The peers of the records, in order.
  pub data Peers : List Entry → List Peer → Type 0 where
    no_more : Peers [] []
    next_record :
        {e : Entry} {es : List Entry} {ps qs : List Peer}
        → Gives e ps
        → Peers es qs
        → Peers (e ∷ es) (ps ++ qs)

  port_or-dialed : (port : ℕ) → port_or default_port port ≡ dialed_port port
  port_or-dialed zero = refl
  port_or-dialed (suc port) = ground arith

  both_hold : (m n p q : ℕ) → ((m == p) && (n == q)) ≡ true → (m ≡ p) × (n ≡ q)
  both_hold m n p q h = ground (arith, h)

  entry-Gives : (e : Entry) → Gives e (entry_peers sha3_256 default_port e)
  unfolding addrv2_peer onion_v3_host
  entry-Gives e =
      let len = length e.addr in
      elim (Bool-cases (e.network == 1 && len == 4)) [
        | inl y ↦
            let (net, size) = both_hold e.network len 1 4 y in
            rw (y, addrv2_peer, port_or-dialed e.port) (ipv4 net size)
        | inr n1 ↦ elim (Bool-cases (e.network == 2 && len == 16)) [
          | inl y ↦
              let (net, size) = both_hold e.network len 2 16 y in
              rw (n1, addrv2_peer, y, port_or-dialed e.port) (ipv6 net size)
          | inr n2 ↦ elim (Bool-cases (e.network == 4 && len == 32)) [
            | inl y ↦
                let (net, size) = both_hold e.network len 4 32 y in
                rw (n1, addrv2_peer, n2, y, size, onion_v3_host, port_or-dialed e.port)
                  (tor_v3 net size)
            | inr n4 ↦ rw (n1, addrv2_peer, n2, n4) (other (ground (arith, n1, n2, n4)))
          ]
        ]
      ]

  parsed-Peers : (es : List Entry) → Peers es (parsed sha3_256 default_port es)
  parsed-Peers [] = no_more
  parsed-Peers (e ∷ es) = next_record (entry-Gives e) (parsed-Peers es)

  -- From an `addrv2` message that announces `count` and carries the records `es`, then nothing or a
  -- record that claims an address of more than 512 bytes, the first `count` records are taken, 1,000
  -- at most, in order. A record of network 1 with 4 bytes gives an IPv4 peer, one of network 2 with 16 an IPv6
  -- peer, and one of network 4 with 32 the Tor v3 peer of that public key, with the default port for port 0;
  -- others give none. The oversized record ends the parse and costs no peer before it.
  pub parse_addrv2-entries :
      (count : ℕ) (es : List Entry) (rest : Bytes)
      → count < 2 ^ 64
      → All IsEntry es
      → Stop rest
      → Peers
          (take (min count 1000) es)
          (parse_addrv2 sha3_256 (write_varint [] count ++ (entries es ++ rest)) default_port)
  parse_addrv2-entries count es rest small a s =
      subst (Peers (take (min count 1000) es))
        (sym (parsed-addrv2 sha3_256 default_port count es rest small a s))
        (parsed-Peers (take (min count 1000) es))
