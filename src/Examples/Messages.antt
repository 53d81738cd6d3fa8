-- ===== src/Examples/Messages.antt =====
-- The messages and the user agent at concrete inputs (src/p2p.rs, src/node.rs).
use bip110_crawler.Common.{
  ℕ, ◌≡◌, ◌≢◌, ◌↔◌, ◌⊎◌, refl, List, [], ◌∷◌, ◌++◌, replicate, Bytes, Text, codes, to_lowercase,
  contains, starts_with, find, take_while, skip_while, is_ascii_digit, decimal, ℤ, pos, arith, map,
  take, min,
}
use bip110_crawler.P2p.Wire.{write_varint}
use bip110_crawler.P2p.Headers.{PeerHeader, parse_headers, peer_hash_at, hash_hex}
use bip110_crawler.P2p.Headers.Parsing.{
  RawHeader, header_bytes, headers_payload, announced, parse_headers-headers_payload,
}
use bip110_crawler.P2p.Headers.Placing.{Placed, peer_hash_at_correct}
use bip110_crawler.P2p.Addr.{parse_addrv2}
use bip110_crawler.P2p.Addr.Records
use bip110_crawler.P2p.Addr.Records.{Stop, hostile}
use bip110_crawler.P2p.Addr.V2
use bip110_crawler.P2p.Addr.V2.{parse_addrv2-entries}
use bip110_crawler.Node.{enforcing, unknown}
use bip110_crawler.Node.UserAgent.{assess_bip110, rule_stance, signals_bip110, knots_build_date}
use bip110_crawler.Node.UserAgent.Readiness.{Ready, assess_bip110-Ready}
use bip110_crawler.Examples.Wire.{sha256}

abbrev raw_header : RawHeader
raw_header = record { version = replicate 4 1; parent = replicate 32 7; rest = replicate 44 2 }

parse_headers-headers_payload_example :
    parse_headers sha256 (headers_payload 1 (map header_bytes (raw_header ∷ [])))
    ≡ map (announced sha256) (take (min 1 2000) (raw_header ∷ []))
parse_headers-headers_payload_example =
    parse_headers-headers_payload sha256 1 (raw_header ∷ []) (omega arith) ((refl, refl, refl), tt)

abbrev sent : Bytes
sent = 0xAB ∷ []

-- Two headers above the block `1 ∷ []`, which the locator lists at height 100.
abbrev run : List PeerHeader
run = record { hash = 2 ∷ []; prev = 1 ∷ [] } ∷ record { hash = 3 ∷ []; prev = 2 ∷ [] } ∷ []

abbrev locator : List (Bytes × ℤ)
locator = (9 ∷ [], pos 110) ∷ (1 ∷ [], pos 100) ∷ []

peer_hash_at_correct_example :
    ((h : PeerHeader) × Placed run locator (pos 102) h
      × (peer_hash_at run locator (pos 102) ≡ hash_hex h.hash))
    ⊎ ((peer_hash_at run locator (pos 102) ≡ [])
        × ((h : PeerHeader) → ¬ Placed run locator (pos 102) h))
peer_hash_at_correct_example = peer_hash_at_correct run locator (pos 102)

-- An IPv4 record, then one that claims 513 bytes of address.
abbrev v2_entries : List Records.Entry
v2_entries =
    record { time = replicate 4 0; services = 1; network = 1; addr = 1 ∷ 2 ∷ 3 ∷ 4 ∷ []; port = 0 }
    ∷ []

abbrev oversized : Bytes
oversized = replicate 4 0 ++ (write_varint [] 1 ++ ((1 ∷ []) ++ (write_varint [] 513 ++ [])))

parse_addrv2-entries_example :
    V2.Peers sha256 8333
      (take (min 2 1000) v2_entries)
      (parse_addrv2 sha256 (write_varint [] 2 ++ (Records.entries v2_entries ++ oversized)) 8333)
parse_addrv2-entries_example =
    parse_addrv2-entries sha256 8333 2 v2_entries oversized (omega arith)
      (
        record {
          time_width = refl;
          services_fit = omega arith;
          addr_short = omega arith;
          port_fits = omega arith;
        },
        tt,
      )
      (hostile (replicate 4 0) 1 1 513 [] oversized refl (omega arith) (omega arith) (omega arith)
        refl)

-- A Knots build of 8 May 2026.
abbrev knots_ua : Text
knots_ua = codes "/Satoshi:29.0.0(FutureBit_BIP-110-signal-2026)/Knots:20260508/"

abbrev ascii_only : ℕ → Text
ascii_only c = c ∷ []

assess_bip110-Ready_example :
    ((assess_bip110 ascii_only knots_ua [] ≡ enforcing) ↔ Ready (to_lowercase ascii_only knots_ua))
    × (assess_bip110 ascii_only knots_ua [] ≢ unknown)
unfolding rule_stance
assess_bip110-Ready_example = assess_bip110-Ready ascii_only knots_ua [] refl

knots_ua-enforces : assess_bip110 ascii_only knots_ua [] ≡ enforcing
unfolding assess_bip110 to_lowercase contains starts_with find knots_build_date take_while
    skip_while is_ascii_digit decimal signals_bip110 rule_stance
knots_ua-enforces = refl
