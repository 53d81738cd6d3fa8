-- ===== src/P2p/Peer.antt =====
-- Peers and addresses (src/p2p.rs): `Peer`, IPv4 in IPv6, and Tor v3 host names.
pub mod Mapped
pub mod Spelling
use bip110_crawler.Common.{
  ℕ, zero, suc, ◌+◌, ◌-◌, ◌*◌, ◌/◌, ◌%◌, ◌^◌, Bool, true, false, not, ◌&&◌, List, [], ◌∷◌, ◌++◌,
  Option, none, some, if◌then◌else◌, leb, ltb, ◌==◌, length, take, drop, replicate, get_or, list_eq,
  Text, codes, Bytes,
}

pub data IpAddr : Type 0 where
  v4 : Bytes → IpAddr
  v6 : Bytes → IpAddr

-- A clearnet socket address (`SocketAddr` with its port), or a Tor v3 host and port. The scope and the flow
-- label of an IPv6 socket address are left out: they are zero in every address off the wire.
pub data Peer : Type 0 where
  clearnet : IpAddr → ℕ → Peer
  onion : Text → ℕ → Peer

unfoldable pub is_onion : Peer → Bool
is_onion (clearnet ip port) = false
is_onion (onion host port) = true

-- `::ffff:a.b.c.d`
abbrev pub mapped_prefix : Bytes
mapped_prefix = replicate 10 0 ++ 0xFF ∷ 0xFF ∷ []

unfoldable pub ip_to_16 : IpAddr → Bytes
ip_to_16 (v4 octets) = mapped_prefix ++ octets
ip_to_16 (v6 octets) = octets

-- IPv4-mapped addresses are unmapped back to IPv4.
unfoldable pub ip16_to_addr : Bytes → Option IpAddr
ip16_to_addr bytes =
    if not (length bytes == 16)
    then none
    else if list_eq (take 12 bytes) mapped_prefix
    then some (v4 (drop 12 bytes))
    else some (v6 bytes)

-- RFC 4648 base32 in lower case, with no padding. `bits` is a u32: the shift drops its high bits.
abbrev alphabet : Text
alphabet = codes "abcdefghijklmnopqrstuvwxyz234567"

abbrev digit : ℕ → ℕ
digit n = get_or alphabet n 0

-- `while nbits >= 5`: at most two rounds for the eight bits of a byte, `fuel` rounds here.
drain : ℕ → ℕ → ℕ → Text × ℕ
drain zero bits nbits = ([], nbits)
drain (suc fuel) bits nbits =
    if leb 5 nbits
    then (
      digit (bits / 2 ^ (nbits - 5) % 32) ∷ (drain fuel bits (nbits - 5)).0,
      (drain fuel bits (nbits - 5)).1,
    )
    else ([], nbits)

base32_loop : Bytes → ℕ → ℕ → Text
base32_loop [] bits nbits =
    if ltb 0 nbits then digit (bits * 2 ^ (5 - nbits) % 2 ^ 32 % 32) ∷ [] else []
base32_loop (b ∷ bytes) bits nbits =
    let bits' = bits * 256 % 2 ^ 32 + b in
    let drained = drain 3 bits' (nbits + 8) in drained.0 ++ base32_loop bytes bits' drained.1

unfoldable pub base32_lower : Bytes → Text
unfolding base32_loop drain
base32_lower bytes = base32_loop bytes 0 0

-- SHA3-256 is the `sha3` crate's.
unfoldable pub onion_v3_host : (Bytes → Bytes) → Bytes → Option Text
onion_v3_host sha3_256 pubkey =
    if not (length pubkey == 32)
    then none
    else let sum = sha3_256 (codes ".onion checksum" ++ pubkey ++ 0x03 ∷ []) in
      some (base32_lower (pubkey ++ take 2 sum ++ 0x03 ∷ []) ++ codes ".onion")
