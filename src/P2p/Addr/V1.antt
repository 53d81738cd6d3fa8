-- ===== src/P2p/Addr/V1.antt =====
-- The `addr` parser against the entries of the wire format (src/p2p.rs).
use bip110_crawler.Common.{
  ℕ, zero, suc, ◌+◌, ◌^◌, ◌<◌, ◌≡◌, refl, sym, ap, ◌∙◌, subst, List, [], ◌∷◌, ◌++◌, append_assoc,
  append-nil, some, length, length-append, take, drop, take-append, drop-append, min, slice,
  slice-At, slice_short, At, At-start, At-next, Bytes, to_be_bytes, from_be_bytes-to_be_bytes,
  length-to_be_bytes, All, arith,
}
use bip110_crawler.P2p.Wire.{write_varint}
use bip110_crawler.P2p.Wire.Varint.{read_varint-write_varint}
use bip110_crawler.P2p.Peer.{IpAddr, Peer, ip_to_16}
use bip110_crawler.P2p.Peer.Mapped.{IsPlain, ip16_to_addr-ip_to_16}
use bip110_crawler.P2p.Addr.{port_or, addr_entry, parse_addr_loop, parse_addr}

-- An entry of an `addr` message: time and services, address, port.
pub record Entry : Type 0 where
  pub meta : Bytes
  pub ip : IpAddr
  pub port : ℕ

pub record IsEntry (e : Entry) : Type 0 where
  pub meta_width : length e.meta ≡ 12
  pub plain : IsPlain e.ip
  pub port_fits : e.port < 2 ^ 16

abbrev pub entry_bytes : Entry → Bytes
entry_bytes e = e.meta ++ (ip_to_16 e.ip ++ to_be_bytes 2 e.port)

abbrev pub entries : List Entry → Bytes
entries [] = []
entries (e ∷ es) = entry_bytes e ++ entries es

-- The peer that an entry names: port 0 stands for the network's default port.
abbrev pub peers : ℕ → List Entry → List Peer
peers default_port [] = []
peers default_port (e ∷ es) =
    Peer.clearnet e.ip (port_or default_port e.port) ∷ peers default_port es

length-ip_to_16 : (ip : IpAddr) → IsPlain ip → length (ip_to_16 ip) ≡ 16
unfolding ip_to_16
length-ip_to_16 (IpAddr.v4 octets) h = omega arith
length-ip_to_16 (IpAddr.v6 octets) h = h.0

part :
    (s n : ℕ) (pre xs rest : Bytes)
    → length pre ≡ s
    → length xs ≡ n
    → take n (drop s (pre ++ (xs ++ rest))) ≡ xs
part s n pre xs rest e e' = rw (← e, ← e', drop-append pre (xs ++ rest), take-append xs rest)

module _ (default_port : ℕ) (e : Entry) (is : IsEntry e) where
  length-entry_bytes : length (entry_bytes e) ≡ 30
  length-entry_bytes = omega (
    arith,
    is.meta_width,
    length-append e.meta (ip_to_16 e.ip ++ to_be_bytes 2 e.port),
    length-append (ip_to_16 e.ip) (to_be_bytes 2 e.port),
    length-ip_to_16 e.ip is.plain,
    length-to_be_bytes 2 e.port,
  )

  entry_ip : take 16 (drop 12 (entry_bytes e)) ≡ ip_to_16 e.ip
  entry_ip = part 12 16 e.meta (ip_to_16 e.ip) _ is.meta_width (length-ip_to_16 e.ip is.plain)

  entry_port : take 2 (drop 28 (entry_bytes e)) ≡ to_be_bytes 2 e.port
  entry_port =
      ap (λ b. take 2 (drop 28 b))
        (sym (append_assoc e.meta (ip_to_16 e.ip) (to_be_bytes 2 e.port))
          ∙ ap (λ b. (e.meta ++ ip_to_16 e.ip) ++ b) (sym (append-nil (to_be_bytes 2 e.port))))
      ∙ part 28 2 (e.meta ++ ip_to_16 e.ip) (to_be_bytes 2 e.port) [] before
          (length-to_be_bytes 2 e.port)
    where
      before : length (e.meta ++ ip_to_16 e.ip) ≡ 28
      before = omega (
        arith,
        is.meta_width,
        length-append e.meta (ip_to_16 e.ip),
        length-ip_to_16 e.ip is.plain,
      )

  addr_entry-entry_bytes :
      addr_entry default_port (entry_bytes e)
      ≡ Peer.clearnet e.ip (port_or default_port e.port) ∷ []
  unfolding addr_entry
  addr_entry-entry_bytes =
      rw
        (
          entry_ip,
          ip16_to_addr-ip_to_16 e.ip is.plain,
          addr_entry,
          entry_port,
          from_be_bytes-to_be_bytes 2 e.port is.port_fits,
        )
        refl

loop-entries :
    (default_port count : ℕ) (es : List Entry) {payload : Bytes} {at : ℕ}
    → All IsEntry es
    → At payload at (entries es)
    → parse_addr_loop default_port count payload at ≡ peers default_port (take count es)
unfolding parse_addr_loop
loop-entries d zero es a c = refl
loop-entries d (suc count) [] a c = rw (slice_short 30 [] c (omega arith), parse_addr_loop) refl
loop-entries d (suc count) (e ∷ es) {payload} {at} (is, a) c =
    let found : slice payload at (at + 30) ≡ some (entry_bytes e) =
      subst (λ (n : ℕ). slice payload at (at + n) ≡ some (entry_bytes e))
        (length-entry_bytes d e is) (slice-At (entry_bytes e) _ c) in
    let next : At payload (at + 30) (entries es) =
      subst (λ (n : ℕ). At payload (at + n) (entries es)) (length-entry_bytes d e is)
        (At-next (entry_bytes e) _ c) in
    rw (found, parse_addr_loop, addr_entry-entry_bytes d e is)
      (ap (λ r. Peer.clearnet e.ip (port_or d e.port) ∷ r) (loop-entries d count es a next))

-- From an `addr` message that announces `count` and carries `es`, the first `count` entries are
-- taken, 1,000 at most: each gives the clearnet peer of its address, IPv4-mapped or not, and its
-- port, with the default port for port 0.
pub parse_addr-entries :
    (default_port count : ℕ) (es : List Entry)
    → count < 2 ^ 64
    → All IsEntry es
    → parse_addr (write_varint [] count ++ entries es) default_port
      ≡ peers default_port (take (min count 1000) es)
unfolding parse_addr
parse_addr-entries default_port count es small a =
    let start = At-start (write_varint [] count ++ entries es) in
    rw (read_varint-write_varint count (entries es) small start, parse_addr)
      (loop-entries default_port (min count 1000) es a (At-next (write_varint [] count) _ start))
