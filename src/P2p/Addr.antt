-- ===== src/P2p/Addr.antt =====
-- `addr` and `addrv2` messages (src/p2p.rs, "addr / addrv2 parsing").
pub mod V1
pub mod Records
pub mod V2
pub mod Limits
use bip110_crawler.Common.{
  ℕ, zero, suc, ◌+◌, ◌^◌, Bool, true, false, ◌&&◌, List, [], ◌∷◌, ◌++◌, Option, none, some,
  if◌then◌else◌, leb, ◌==◌, length, take, drop, get_elem?, slice, min, Bytes, from_be_bytes, ok,
  err,
}
use bip110_crawler.P2p.Wire.{read_varint, read_array}
use bip110_crawler.P2p.Peer.{IpAddr, v4, v6, Peer, ip16_to_addr, onion_v3_host}

abbrev pub port_or : ℕ → ℕ → ℕ
port_or default_port port = if port == 0 then default_port else port

-- One entry of `addr`: time(4), services(8), ip(16), port(2).
unfoldable pub addr_entry : ℕ → Bytes → List Peer
addr_entry default_port entry = elim (ip16_to_addr (take 16 (drop 12 entry))) [
  | none ↦ []
  | some ip ↦ Peer.clearnet ip (port_or default_port (from_be_bytes (take 2 (drop 28 entry)))) ∷ []
]

parse_addr_loop : ℕ → ℕ → Bytes → ℕ → List Peer
parse_addr_loop default_port zero payload at = []
parse_addr_loop default_port (suc count) payload at = elim (slice payload at (at + 30)) [
  | none ↦ []
  | some entry ↦
      addr_entry default_port entry ++ parse_addr_loop default_port count payload (at + 30)
]

unfoldable pub parse_addr : Bytes → ℕ → List Peer
unfolding parse_addr_loop addr_entry
parse_addr payload default_port = elim (read_varint payload 0) [
  | err _ ↦ []
  | ok (count, at) ↦ parse_addr_loop default_port (min count 1000) payload at
]

-- SHA3-256 is the `sha3` crate's.
module _ (sha3_256 : Bytes → Bytes) where
  -- The `match (network, addr_len)`: networks 1, 2 and 4 of BIP155 are decoded.
  unfoldable pub addrv2_peer : ℕ → Bytes → ℕ → List Peer
  addrv2_peer network addr_bytes port =
      if network == 1 && length addr_bytes == 4
      then Peer.clearnet (v4 addr_bytes) port ∷ []
      else if network == 2 && length addr_bytes == 16
      then Peer.clearnet (v6 addr_bytes) port ∷ []
      else if network == 4 && length addr_bytes == 32
      then elim (onion_v3_host sha3_256 addr_bytes) [
        | none ↦ []
        | some host ↦ Peer.onion host port ∷ []
      ]
      else []

  -- One record from `at` on, with the position behind it; `none` where the loop breaks.
  unfoldable pub addrv2_entry : ℕ → Bytes → ℕ → Option (List Peer × ℕ)
  addrv2_entry default_port payload at = elim (read_array 4 payload at) [
    | err _ ↦ none
    | ok (_, at1) ↦ elim (read_varint payload at1) [
      | err _ ↦ none
      | ok (_, at2) ↦ elim (get_elem? payload at2) [
        | none ↦ none
        | some network ↦ elim (read_varint payload (at2 + 1)) [
          | err _ ↦ none
          | ok (addr_len, at3) ↦
              if leb addr_len 512
              then elim (slice payload at3 (at3 + addr_len)) [
                | none ↦ none
                | some addr_bytes ↦ elim (read_array 2 payload (at3 + addr_len)) [
                  | err _ ↦ none
                  | ok (port, at4) ↦ some (
                    addrv2_peer network addr_bytes (port_or default_port (from_be_bytes port)),
                    at4,
                  )
                ]
              ]
              else none
        ]
      ]
    ]
  ]

  parse_addrv2_loop : ℕ → ℕ → Bytes → ℕ → List Peer
  parse_addrv2_loop default_port zero payload at = []
  parse_addrv2_loop default_port (suc count) payload at =
      elim (addrv2_entry default_port payload at) [
        | none ↦ []
        | some (peers, at') ↦ peers ++ parse_addrv2_loop default_port count payload at'
      ]

  unfoldable pub parse_addrv2 : Bytes → ℕ → List Peer
  unfolding parse_addrv2_loop
  parse_addrv2 payload default_port = elim (read_varint payload 0) [
    | err _ ↦ []
    | ok (count, at) ↦ parse_addrv2_loop default_port (min count 1000) payload at
  ]
