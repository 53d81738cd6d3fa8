-- ===== src/Locator/RoundTrip.antt =====
-- A hash survives its display form (src/main.rs).
use bip110_crawler.Common.{
  ◌≡◌, refl, [], ◌∷◌, some, length, Bytes, AreBytes, from_hex_2-hex_byte, arith,
}
use mathlib.Core.List.{reverse, reverse-reverse}
use bip110_crawler.P2p.Headers.{hex_bytes, hash_hex}
use bip110_crawler.P2p.Headers.HashHex.{length-hash_hex, reverse-AreBytes}
use bip110_crawler.Locator.{parse_pairs, block_hash_at}

parse_pairs-hex_bytes : (bs : Bytes) → AreBytes bs → parse_pairs (hex_bytes bs) ≡ some bs
unfolding parse_pairs hex_bytes
parse_pairs-hex_bytes [] h = refl
parse_pairs-hex_bytes (b ∷ bs) h =
    rw (from_hex_2-hex_byte b h.0, parse_pairs, parse_pairs-hex_bytes bs h.1) refl

-- The displayed form of a 32-byte hash is read back as the hash, in its internal byte order.
pub block_hash_at-hash_hex :
    (h : Bytes) → AreBytes h → length h ≡ 32 → block_hash_at (some (hash_hex h)) ≡ some h
unfolding block_hash_at hash_hex
block_hash_at-hash_hex h bytes e =
    let wide : length (hash_hex h) ≡ 64 = omega (arith, length-hash_hex h, e) in
    rw
      (
        wide,
        block_hash_at,
        parse_pairs-hex_bytes (reverse h) (reverse-AreBytes h bytes),
        reverse-reverse h,
      )
      refl
