-- ===== src/P2p/Session/Collects.antt =====
-- How much the collecting loop of a probe takes from the peer (src/p2p.rs).
use bip110_crawler.Common.{
  ℕ, zero, suc, ◌+◌, ◌*◌, ◌≤◌, ◌≡◌, inl, inr, refl, true, ◌&&◌, leb, length, length-append, list_eq,
  Bool-cases, Result-cases, Text, codes, Bytes, arith,
}
use bip110_crawler.P2p.Frame.{RawMessage, read_message}
use bip110_crawler.P2p.Headers.Parsing.{length-parse_headers}
use bip110_crawler.P2p.Addr.{parse_addr, parse_addrv2}
use bip110_crawler.P2p.Addr.Limits.{length-parse_addr, length-parse_addrv2}
use bip110_crawler.P2p.Version.{NetworkParams}
use bip110_crawler.P2p.Session.{Collection, collect_message, collect_loop}

module _ (sha256 sha3_256 : Bytes → Bytes) (lossy : Bytes → Text) (net : NetworkParams) where
  -- What one message adds to the collection.
  record Grows (c c' : Collection) : Type 0 where
    peers : length c'.discovered ≤ length c.discovered + 1000
    kept : c.got_headers ≡ true → c'.got_headers ≡ true
    bounded : length c.headers ≤ 2000 → length c'.headers ≤ 2000

  collect_message-Grows :
      (msg : RawMessage) (c : Collection)
      → Grows c (collect_message sha256 sha3_256 lossy net msg c)
  unfolding collect_message
  collect_message-Grows msg c = elim (Bool-cases (list_eq msg.command (codes "addr"))) [
    | inl y ↦
        rw (y, collect_message)
          (record {
            peers = omega (
              arith,
              length-append c.discovered (parse_addr msg.payload net.default_port),
              length-parse_addr msg.payload net.default_port,
            );
            kept = λ k. k;
            bounded = λ b. b;
          })
    | inr n1 ↦ elim (Bool-cases (list_eq msg.command (codes "addrv2"))) [
      | inl y ↦
          rw (n1, collect_message, y)
            (record {
              peers = omega (
                arith,
                length-append c.discovered (parse_addrv2 sha3_256 msg.payload net.default_port),
                length-parse_addrv2 sha3_256 msg.payload net.default_port,
              );
              kept = λ k. k;
              bounded = λ b. b;
            })
      | inr n2 ↦ elim (Bool-cases (list_eq msg.command (codes "headers"))) [
        | inl y ↦
            rw (n1, collect_message, n2, y)
              (record {
                peers = omega arith;
                kept = λ k. refl;
                bounded = λ b. length-parse_headers sha256 msg.payload;
              })
        | inr n3 ↦ elim (Bool-cases (list_eq msg.command (codes "ping"))) [
          | inl y ↦
              rw (n1, collect_message, n2, n3, y)
                (record { peers = omega arith; kept = λ k. k; bounded = λ b. b })
          | inr n4 ↦
              rw (n1, collect_message, n2, n3, n4)
                (record { peers = omega arith; kept = λ k. k; bounded = λ b. b })
        ]
      ]
    ]
  ]

  pub collect_loop-headers :
      (rounds : ℕ) (c : Collection)
      → length c.headers ≤ 2000
      → length (collect_loop sha256 sha3_256 lossy net rounds c).headers ≤ 2000
  unfolding collect_loop
  collect_loop-headers zero c h = h
  collect_loop-headers (suc rounds) c h = elim (Result-cases (read_message c.stream net.magic)) [
    | inl (x, p) ↦ rw (p, collect_loop) h
    | inr ((msg, stream), p) ↦
        let c' = collect_message sha256 sha3_256 lossy net msg (record c { stream = stream }) in
        let g = (collect_message-Grows msg (record c { stream = stream })).bounded h in
        elim (Bool-cases (leb 1000 (length c'.discovered) && c'.got_headers)) [
          | inl y ↦ rw (p, collect_loop, y) g
          | inr n ↦ rw (p, collect_loop, n) (collect_loop-headers rounds c' g)
        ]
  ]

  pub collect_loop-peers :
      (rounds : ℕ) (c : Collection)
      → c.got_headers ≡ true
      → length c.discovered ≤ 999
      → length (collect_loop sha256 sha3_256 lossy net rounds c).discovered ≤ 1999
  unfolding collect_loop
  collect_loop-peers zero c k h = omega arith
  collect_loop-peers (suc rounds) c k h = elim (Result-cases (read_message c.stream net.magic)) [
    | inl (x, p) ↦ rw (p, collect_loop) (omega arith)
    | inr ((msg, stream), p) ↦
        let c' = collect_message sha256 sha3_256 lossy net msg (record c { stream = stream }) in
        let g = collect_message-Grows msg (record c { stream = stream }) in
        let k' = g.kept k in
        elim (Bool-cases (leb 1000 (length c'.discovered) && c'.got_headers)) [
          | inl y ↦ rw (p, collect_loop, y) (omega (arith, g.peers))
          | inr n ↦ rw (p, collect_loop, n) (collect_loop-peers rounds c' k' (ground arith))
        ]
  ]

  -- Each round reads one message, which brings 1,000 peers at most.
  collect_loop-rounds :
      (rounds : ℕ) (c : Collection)
      → length (collect_loop sha256 sha3_256 lossy net rounds c).discovered
        ≤ length c.discovered + 1000 * rounds
  unfolding collect_loop
  collect_loop-rounds zero c = omega arith
  collect_loop-rounds (suc rounds) c = elim (Result-cases (read_message c.stream net.magic)) [
    | inl (x, p) ↦ rw (p, collect_loop) (omega arith)
    | inr ((msg, stream), p) ↦
        let c' = collect_message sha256 sha3_256 lossy net msg (record c { stream = stream }) in
        let g = collect_message-Grows msg (record c { stream = stream }) in
        elim (Bool-cases (leb 1000 (length c'.discovered) && c'.got_headers)) [
          | inl y ↦ rw (p, collect_loop, y) (omega (arith, g.peers))
          | inr n ↦ rw (p, collect_loop, n) (omega (arith, g.peers, collect_loop-rounds rounds c'))
        ]
  ]

  pub collect_loop-fresh :
      (rounds : ℕ) (c : Collection)
      → length c.discovered ≡ 0
      → length (collect_loop sha256 sha3_256 lossy net rounds c).discovered ≤ 1000 * rounds
  collect_loop-fresh rounds c h = omega (arith, h, collect_loop-rounds rounds c)
