-- ===== src/P2p/Addr/Limits.antt =====
-- No message gives more than 1,000 peers (src/p2p.rs).
use bip110_crawler.Common.{
  ℕ, zero, suc, ◌+◌, ◌≤◌, ◌≡◌, List, some, length, length-append, slice, min, Option-cases,
  Result-cases, inl, inr, Bytes, arith,
}
use bip110_crawler.P2p.Wire.{read_varint}
use bip110_crawler.P2p.Peer.{Peer}
use bip110_crawler.P2p.Addr.{
  addr_entry, parse_addr_loop, parse_addr, addrv2_peer, addrv2_entry, parse_addrv2_loop,
  parse_addrv2,
}

length-addr_entry : (default_port : ℕ) (entry : Bytes) → length (addr_entry default_port entry) ≤ 1
unfolding addr_entry
length-addr_entry default_port entry = ground arith

length-parse_addr_loop :
    (default_port count : ℕ) (payload : Bytes) (at : ℕ)
    → length (parse_addr_loop default_port count payload at) ≤ count
unfolding parse_addr_loop
length-parse_addr_loop d zero payload at = omega arith
length-parse_addr_loop d (suc count) payload at = elim (Option-cases (slice payload at (at + 30))) [
  | inl q ↦ rw (q, parse_addr_loop) (omega arith)
  | inr (entry, q) ↦
      rw (q, parse_addr_loop)
        (omega (
          arith,
          length-append (addr_entry d entry) (parse_addr_loop d count payload (at + 30)),
          length-addr_entry d entry,
          length-parse_addr_loop d count payload (at + 30),
        ))
]

pub length-parse_addr :
    (payload : Bytes) (default_port : ℕ) → length (parse_addr payload default_port) ≤ 1000
unfolding parse_addr
length-parse_addr payload d = elim (Result-cases (read_varint payload 0)) [
  | inl (x, q) ↦ rw (q, parse_addr) (omega arith)
  | inr ((count, at), q) ↦
      rw (q, parse_addr) (omega (arith, length-parse_addr_loop d (min count 1000) payload at))
]

module _ (sha3_256 : Bytes → Bytes) where
  length-addrv2_peer :
      (network : ℕ) (addr : Bytes) (port : ℕ) → length (addrv2_peer sha3_256 network addr port) ≤ 1
  unfolding addrv2_peer
  length-addrv2_peer network addr port = ground arith

  length-addrv2_entry :
      (default_port : ℕ) (payload : Bytes) (at : ℕ) (peers : List Peer) (at' : ℕ)
      → addrv2_entry sha3_256 default_port payload at ≡ some (peers, at')
      → length peers ≤ 1
  unfolding addrv2_entry
  length-addrv2_entry d payload at peers at' e =
      grind (arith, λ (n : ℕ) (a : Bytes) (p : ℕ). length-addrv2_peer n a p)

  length-parse_addrv2_loop :
      (default_port count : ℕ) (payload : Bytes) (at : ℕ)
      → length (parse_addrv2_loop sha3_256 default_port count payload at) ≤ count
  unfolding parse_addrv2_loop
  length-parse_addrv2_loop d zero payload at = omega arith
  length-parse_addrv2_loop d (suc count) payload at =
      elim (Option-cases (addrv2_entry sha3_256 d payload at)) [
        | inl q ↦ rw (q, parse_addrv2_loop) (omega arith)
        | inr ((peers, at'), q) ↦
            rw (q, parse_addrv2_loop)
              (omega (
                arith,
                length-append peers (parse_addrv2_loop sha3_256 d count payload at'),
                length-addrv2_entry d payload at peers at' q,
                length-parse_addrv2_loop d count payload at',
              ))
      ]

  pub length-parse_addrv2 :
      (payload : Bytes) (default_port : ℕ)
      → length (parse_addrv2 sha3_256 payload default_port) ≤ 1000
  unfolding parse_addrv2
  length-parse_addrv2 payload d = elim (Result-cases (read_varint payload 0)) [
    | inl (x, q) ↦ rw (q, parse_addrv2) (omega arith)
    | inr ((count, at), q) ↦
        rw (q, parse_addrv2) (omega (arith, length-parse_addrv2_loop d (min count 1000) payload at))
  ]
