-- ===== src/P2p/Peer/Mapped.antt =====
-- An address survives the 16-byte form, but for IPv6 addresses that are IPv4-mapped (src/p2p.rs).
use bip110_crawler.Common.{
  ◌≡◌, ◌≢◌, refl, some, length, take, list_eq, list_eq→eq, list_eq_refl, Bool-cases, inl, inr,
}
use bip110_crawler.P2p.Peer.{IpAddr, v4, v6, mapped_prefix, ip_to_16, ip16_to_addr}

-- 4 or 16 octets; an IPv6 address must not stand for an IPv4 one.
abbrev pub IsPlain : IpAddr → Type 0
IsPlain (v4 octets) = length octets ≡ 4
IsPlain (v6 octets) = (length octets ≡ 16) × (take 12 octets ≢ mapped_prefix)

-- Every IPv4 address, and every IPv6 address that is not IPv4-mapped, is read back from its 16
-- bytes.
pub ip16_to_addr-ip_to_16 : (ip : IpAddr) → IsPlain ip → ip16_to_addr (ip_to_16 ip) ≡ some ip
unfolding ip16_to_addr ip_to_16
ip16_to_addr-ip_to_16 (v4 octets) h = rw (h, list_eq_refl mapped_prefix) refl
ip16_to_addr-ip_to_16 (v6 octets) (h, plain) =
    elim (Bool-cases (list_eq (take 12 octets) mapped_prefix)) [
      | inl e ↦ absurd (plain (list_eq→eq _ _ e))
      | inr e ↦ rw (h, e) refl
    ]
