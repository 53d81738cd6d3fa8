-- ===== src/P2p/Headers.antt =====
-- Block headers (src/p2p.rs): `getheaders`, the `headers` reply, and placing a peer's hash at a
-- height. SHA-256 is the `sha2` crate's, a parameter.
pub mod Parsing
pub mod Placing
pub mod HashHex
use bip110_crawler.Common.{
  ℕ, zero, suc, ◌+◌, ◌*◌, ◌^◌, Bool, true, false, List, [], ◌∷◌, ◌++◌, none, some, Option,
  if◌then◌else◌, length, take, drop, replicate, get_elem?, list_eq, slice, min, Text, codes, Bytes,
  to_le_bytes, ok, err, ℤ, pos, pos_part, neg_part, ◌-ℤ◌, ltb, ltb_ℤ, hex_byte,
}
use mathlib.Core.List.{reverse}
use bip110_crawler.P2p.Wire.{write_varint, read_varint}
use bip110_crawler.P2p.Frame.{build_message}

-- A header as a peer reports it: its own block hash and its parent's.
pub record PeerHeader : Type 0 where
  pub hash : Bytes
  pub prev : Bytes

-- Hashes are shown byte-reversed, two digits a byte.
unfoldable pub hex_bytes : Bytes → Text
unfolding hex_byte
hex_bytes [] = []
hex_bytes (b ∷ bs) = hex_byte b ++ hex_bytes bs

unfoldable pub hash_hex : Bytes → Text
unfolding hex_bytes
hash_hex h = hex_bytes (reverse h)

-- `locator.iter().find(|(h, _)| *h == first.prev)`, and its height.
anchor : Bytes → List (Bytes × ℤ) → Option ℤ
anchor prev [] = none
anchor prev ((h, height) ∷ locator) = if list_eq h prev then some height else anchor prev locator

hash_at : List PeerHeader → ℤ → Text
hash_at headers idx =
    if ltb_ℤ idx (pos 0)
    then []
    else elim (get_elem? headers (pos_part idx)) [ none ↦ [] | some h ↦ hash_hex h.hash ]

-- The peer's block hash at `target`, or the empty text.
unfoldable pub peer_hash_at : List PeerHeader → List (Bytes × ℤ) → ℤ → Text
unfolding anchor hash_at ◌-ℤ◌
peer_hash_at [] locator target = []
peer_hash_at (first ∷ headers) locator target = elim (anchor first.prev locator) [
  | none ↦ []
  | some base ↦ hash_at (first ∷ headers) (target -ℤ base -ℤ pos 1)
]

abbrev concat : List Bytes → Bytes
concat [] = []
concat (b ∷ bs) = b ++ concat bs

module _ (sha256 : Bytes → Bytes) where
  unfoldable pub block_hash : Bytes → Bytes
  block_hash header80 = sha256 (sha256 header80)

  -- `PROTOCOL_VERSION` is 70016, and the stop hash is zero.
  unfoldable pub build_getheaders : Bytes → List Bytes → Bytes
  build_getheaders magic locator =
      build_message sha256 magic (codes "getheaders")
        (write_varint (to_le_bytes 4 70016) (length locator) ++ concat locator ++ replicate 32 0)

  unfoldable pub peer_header : Bytes → PeerHeader
  unfolding block_hash
  peer_header hdr = record { hash = block_hash hdr; prev = take 32 (drop 4 hdr) }

  -- The `for _ in 0..count` loop, with what it pushes to `out` from here on.
  parse_headers_loop : ℕ → Bytes → ℕ → List PeerHeader
  parse_headers_loop zero payload at = []
  parse_headers_loop (suc count) payload at = elim (slice payload at (at + 80)) [
    | none ↦ []
    | some hdr ↦ peer_header hdr ∷ elim (read_varint payload (at + 80)) [
      | err _ ↦ []
      | ok (_, at') ↦ parse_headers_loop count payload at'
    ]
  ]

  unfoldable pub parse_headers : Bytes → List PeerHeader
  unfolding parse_headers_loop peer_header
  parse_headers payload = elim (read_varint payload 0) [
    | err _ ↦ []
    | ok (count, at) ↦ parse_headers_loop (min count 2000) payload at
  ]
