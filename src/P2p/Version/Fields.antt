-- ===== src/P2p/Version/Fields.antt =====
-- A `version` payload is read as it is laid out, and ours is laid out so (src/p2p.rs).
use bip110_crawler.Common.{
  ℕ, ◌+◌, ◌-◌, ◌%◌, ◌^◌, ◌<◌, ◌≡◌, refl, ap, subst, [], ◌∷◌, ◌++◌, length, length-append, slice-At,
  At, At-start, At-next, Text, Bytes, to_le_bytes, from_le_bytes-to_le_bytes, length-to_le_bytes,
  to_be_bytes, length-to_be_bytes, ok, ℤ, pos, negsuc, le→ltb, ◌>>=◌, arith,
}
use native.Mathlib.Nat.{mod-eq_of_lt}
use bip110_crawler.P2p.Wire.{write_varint}
use bip110_crawler.P2p.Wire.Varint.{read_array-At, read_varint-write_varint}
use bip110_crawler.P2p.Peer.{IpAddr, v4, v6, ip_to_16}
use bip110_crawler.P2p.Peer.Mapped.{IsPlain}
use bip110_crawler.P2p.Version.{
  i32_to_bits, i32_from_bits, encode_netaddr_no_time, unspecified, our_user_agent, protocol_version,
  build_version_payload, parse_version_payload,
}

abbrev pub IsI32 : ℤ → Type 0
IsI32 (pos n) = n < 2 ^ 31
IsI32 (negsuc n) = n < 2 ^ 31

i32_bits : (n : ℤ) → IsI32 n → (i32_to_bits n < 256 ^ 4) × (i32_from_bits (i32_to_bits n) ≡ n)
i32_bits (pos n) h = (omega arith, ground arith)
i32_bits (negsuc n) h =
    (omega arith, rw (le→ltb (2 ^ 32 - 1 - n) (2 ^ 31) (omega arith)) (ap negsuc (omega arith)))

-- The layout of a `version` payload; `between` is what the reader skips.
abbrev pub layout : ℤ → ℕ → Bytes → Bytes → ℤ → Bytes → Bytes
layout version services between ua start_height rest =
    to_le_bytes 4 (i32_to_bits version)
    ++ (to_le_bytes 8 services
        ++ (between
            ++ (write_varint [] (length ua)
                ++ (ua ++ (to_le_bytes 4 (i32_to_bits start_height) ++ rest)))))

module _ (lossy : Bytes → Text) where
  -- Version, services, user agent and start height are read from their places, for every layout
  -- whose user agent ends within the address space.
  pub parse_version_payload-layout :
      (version : ℤ) (services : ℕ) (between ua : Bytes) (start_height : ℤ) (rest : Bytes)
      → IsI32 version
      → services < 2 ^ 64
      → length between ≡ 68
      → 100 + length (write_varint [] (length ua)) + length ua < 2 ^ 64
      → IsI32 start_height
      → parse_version_payload lossy (layout version services between ua start_height rest)
        ≡ ok (record {
          protocol_version = version;
          services = services;
          user_agent = lossy ua;
          start_height = start_height;
          latency_ms = 0;
        })
  unfolding parse_version_payload
  parse_version_payload-layout version services between ua start_height rest hv hs b68 fits hh =
      let payload = layout version services between ua start_height rest in
      let (v32, vback) = i32_bits version hv in
      let (h32, hback) = i32_bits start_height hh in
      let r5 = to_le_bytes 4 (i32_to_bits start_height) ++ rest in
      let r3 = write_varint [] (length ua) ++ (ua ++ r5) in
      let r1 = to_le_bytes 8 services ++ (between ++ r3) in
      let c0 = At-start payload in
      let c1 : At payload 4 r1 =
        subst (λ (n : ℕ). At payload n r1)
          (omega (arith, length-to_le_bytes 4 (i32_to_bits version)))
          (At-next (to_le_bytes 4 (i32_to_bits version)) r1 c0) in
      let c2 : At payload 12 (between ++ r3) =
        subst (λ (n : ℕ). At payload n (between ++ r3))
          (omega (arith, length-to_le_bytes 8 services))
          (At-next (to_le_bytes 8 services) (between ++ r3) c1) in
      let c3 : At payload 80 r3 =
        subst (λ (n : ℕ). At payload n r3) (omega (arith, b68)) (At-next between r3 c2) in
      let c4 = At-next (write_varint [] (length ua)) _ c3 in
      let c5 = At-next ua _ c4 in
      let small : (80 + length (write_varint [] (length ua)) + length ua) % 2 ^ 64
          ≡ 80 + length (write_varint [] (length ua)) + length ua =
        mod-eq_of_lt (omega arith) in
      rw
        (
          read_array-At 4 (to_le_bytes 4 (i32_to_bits version)) _ (length-to_le_bytes 4 _) c0,
          read_array-At 8 (to_le_bytes 8 services) _ (length-to_le_bytes 8 services) c1,
          read_varint-write_varint (length ua) _ (omega arith) c3,
          ◌>>=◌,
          small,
          slice-At ua _ c4,
          parse_version_payload,
          small,
          read_array-At 4 (to_le_bytes 4 (i32_to_bits start_height)) rest (length-to_le_bytes 4 _)
              c5,
          from_le_bytes-to_le_bytes 4 _ v32,
          from_le_bytes-to_le_bytes 8 services (omega arith),
          from_le_bytes-to_le_bytes 4 _ h32,
          vback,
          hback,
        )
        refl

-- What our own `version` payload skips over: the time, both addresses and the nonce.
abbrev skipped : ℕ → ℕ → IpAddr → ℕ → Bytes
skipped now nonce ip port =
    to_le_bytes 8 now
    ++ (encode_netaddr_no_time 0 ip port
        ++ (encode_netaddr_no_time 0 unspecified 0 ++ to_le_bytes 8 nonce))

length-ip_to_16 : (ip : IpAddr) → IsPlain ip → length (ip_to_16 ip) ≡ 16
unfolding ip_to_16
length-ip_to_16 (v4 octets) h = omega arith
length-ip_to_16 (v6 octets) h = h.0

length-netaddr :
    (services : ℕ) (ip : IpAddr) (port : ℕ)
    → length (ip_to_16 ip) ≡ 16
    → length (encode_netaddr_no_time services ip port) ≡ 26
unfolding encode_netaddr_no_time
length-netaddr services ip port h = omega (
  arith,
  h,
  length-append (to_le_bytes 8 services) (ip_to_16 ip ++ to_be_bytes 2 port),
  length-append (ip_to_16 ip) (to_be_bytes 2 port),
  length-to_le_bytes 8 services,
  length-to_be_bytes 2 port,
)

length-skipped :
    (now nonce : ℕ) (ip : IpAddr) (port : ℕ) → IsPlain ip → length (skipped now nonce ip port) ≡ 68
length-skipped now nonce ip port h =
    let a = encode_netaddr_no_time 0 ip port in
    let b = encode_netaddr_no_time 0 unspecified 0 in
    omega (
      arith,
      length-append (to_le_bytes 8 now) (a ++ (b ++ to_le_bytes 8 nonce)),
      length-append a (b ++ to_le_bytes 8 nonce),
      length-append b (to_le_bytes 8 nonce),
      length-to_le_bytes 8 now,
      length-to_le_bytes 8 nonce,
      length-netaddr 0 ip port (length-ip_to_16 ip h),
      length-netaddr 0 unspecified 0 (length-ip_to_16 unspecified refl),
    )

-- The payload that we send is read back: protocol version 70016, no services, our user agent, and
-- the start height that we gave, whatever the time, the nonce and the receiver.
pub parse_version_payload-build_version_payload :
    (lossy : Bytes → Text) (now nonce : ℕ) (recv_ip : IpAddr) (recv_port : ℕ) (start_height : ℤ)
    → IsPlain recv_ip
    → IsI32 start_height
    → parse_version_payload lossy (build_version_payload now nonce recv_ip recv_port start_height)
      ≡ ok (record {
        protocol_version = pos protocol_version;
        services = 0;
        user_agent = lossy our_user_agent;
        start_height = start_height;
        latency_ms = 0;
      })
unfolding build_version_payload write_varint
parse_version_payload-build_version_payload lossy now nonce recv_ip recv_port start_height plain h =
    parse_version_payload-layout lossy (pos protocol_version) 0
      (skipped now nonce recv_ip recv_port) our_user_agent start_height (0 ∷ []) (omega arith)
      (omega arith) (length-skipped now nonce recv_ip recv_port plain) (omega arith) h
