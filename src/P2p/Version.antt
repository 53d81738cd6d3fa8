-- ===== src/P2p/Version.antt =====
-- The `version` message (src/p2p.rs: `build_version_payload`, `parse_version_payload`), and the
-- networks (`NetworkParams`). The clock and the random nonce are given.
pub mod Fields
use bip110_crawler.Common.{
  ℕ, ◌+◌, ◌-◌, ◌%◌, ◌^◌, [], ◌∷◌, ◌++◌, Bool, ◌||◌, none, some, if◌then◌else◌, ltb, length,
  replicate, slice, Text, codes, list_eq, Bytes, to_le_bytes, from_le_bytes, to_be_bytes, Result,
  ok, err, ◌>>=◌, Error, ℤ, pos, negsuc,
}
use Error.{truncated_user_agent, unknown_network}
use bip110_crawler.P2p.Wire.{write_varint, read_array, read_varint}
use bip110_crawler.P2p.Peer.{IpAddr, v4, ip_to_16}
use bip110_crawler.Crawler.{PeerVersion}

pub record NetworkParams : Type 0 where
  pub magic : Bytes
  pub default_port : ℕ
  pub name : Text

unfoldable pub from_name : Text → Result NetworkParams
from_name name =
    if list_eq name (codes "main") || list_eq name (codes "mainnet")
    then ok (record {
      magic = 0xF9 ∷ 0xBE ∷ 0xB4 ∷ 0xD9 ∷ [];
      default_port = 8333;
      name = codes "main";
    })
    else if list_eq name (codes "test")
        || list_eq name (codes "testnet")
        || list_eq name (codes "testnet3")
    then ok (record {
      magic = 0x0B ∷ 0x11 ∷ 0x09 ∷ 0x07 ∷ [];
      default_port = 18333;
      name = codes "test";
    })
    else if list_eq name (codes "signet")
    then ok (record {
      magic = 0x0A ∷ 0x03 ∷ 0xCF ∷ 0x40 ∷ [];
      default_port = 38333;
      name = codes "signet";
    })
    else if list_eq name (codes "regtest")
    then ok (record {
      magic = 0xFA ∷ 0xBF ∷ 0xB5 ∷ 0xDA ∷ [];
      default_port = 18444;
      name = codes "regtest";
    })
    else err unknown_network

-- An i32 as its 32 bits, in two's complement, and back.
abbrev pub i32_to_bits : ℤ → ℕ
i32_to_bits (pos n) = n
i32_to_bits (negsuc n) = 2 ^ 32 - 1 - n

abbrev pub i32_from_bits : ℕ → ℤ
i32_from_bits n = if ltb n (2 ^ 31) then pos n else negsuc (2 ^ 32 - 1 - n)

unfoldable pub encode_netaddr_no_time : ℕ → IpAddr → ℕ → Bytes
encode_netaddr_no_time services ip port =
    to_le_bytes 8 services ++ (ip_to_16 ip ++ to_be_bytes 2 port)

abbrev pub unspecified : IpAddr
unspecified = v4 (replicate 4 0)

abbrev pub our_user_agent : Text
our_user_agent = codes "/bip110-crawler:0.1.0/"

-- PROTOCOL_VERSION
abbrev pub protocol_version : ℕ
protocol_version = 70016

unfoldable pub build_version_payload : ℕ → ℕ → IpAddr → ℕ → ℤ → Bytes
unfolding encode_netaddr_no_time
build_version_payload now nonce recv_ip recv_port start_height =
    to_le_bytes 4 protocol_version
    ++ (to_le_bytes 8 0
        ++ ((to_le_bytes 8 now
              ++ (encode_netaddr_no_time 0 recv_ip recv_port
                  ++ (encode_netaddr_no_time 0 unspecified 0 ++ to_le_bytes 8 nonce)))
            ++ (write_varint [] (length our_user_agent)
                ++ (our_user_agent ++ (to_le_bytes 4 (i32_to_bits start_height) ++ 0 ∷ [])))))

-- `from_utf8_lossy` is the standard library's decoder, given as `lossy`. Positions are usize, whose
-- sums wrap in a release build.
module _ (lossy : Bytes → Text) where
  unfoldable pub parse_version_payload : Bytes → Result PeerVersion
  parse_version_payload payload = do
    (version, at1) ← read_array 4 payload 0
    (services, at2) ← read_array 8 payload at1
    (ua_len, at3) ← read_varint payload (at2 + (8 + 26 + 26 + 8))
    let at4 = (at3 + ua_len) % 2 ^ 64
    elim (slice payload at3 at4) [
      | none ↦ err truncated_user_agent
      | some ua_bytes ↦
          (read_array 4 payload at4 >>= λ (start_height, at5). ok (record {
            protocol_version = i32_from_bits (from_le_bytes version);
            services = from_le_bytes services;
            user_agent = lossy ua_bytes;
            start_height = i32_from_bits (from_le_bytes start_height);
            latency_ms = 0;
          }))
    ]
