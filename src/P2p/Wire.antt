-- ===== src/P2p/Wire.antt =====
-- CompactSize numbers and fixed-width reads at a cursor (src/p2p.rs, "CompactSize (varint) helpers").
-- A function that advances `pos: &mut usize` returns the new position with its value.
pub mod Varint
use bip110_crawler.Common.{
  ℕ, ◌+◌, ◌%◌, ◌^◌, [], ◌∷◌, ◌++◌, none, some, if◌then◌else◌, ltb, leb, ◌==◌, get_elem?, slice,
  Bytes, to_le_bytes, from_le_bytes, Result, ok, err, ◌>>=◌, Error,
}
use Error.{varint_eof, read_eof}

-- `n as u8`, `n as u16` and `n as u32` keep the low bits.
unfoldable pub write_varint : Bytes → ℕ → Bytes
write_varint buf n =
    if ltb n 0xFD
    then buf ++ (n % 256) ∷ []
    else if leb n 0xFFFF
    then (buf ++ 0xFD ∷ []) ++ to_le_bytes 2 (n % 2 ^ 16)
    else if leb n 0xFFFF_FFFF
    then (buf ++ 0xFE ∷ []) ++ to_le_bytes 4 (n % 2 ^ 32)
    else (buf ++ 0xFF ∷ []) ++ to_le_bytes 8 n

unfoldable pub read_array : ℕ → Bytes → ℕ → Result (Bytes × ℕ)
read_array n bytes pos = elim (slice bytes pos (pos + n)) [
  | none ↦ err read_eof
  | some out ↦ ok (out, pos + n)
]

unfoldable pub read_le : ℕ → Bytes → ℕ → Result (ℕ × ℕ)
read_le n bytes pos = do (v, pos') ← read_array n bytes pos; ok (from_le_bytes v, pos')

-- The `match first` of `read_varint`.
unfoldable pub after_first : ℕ → Bytes → ℕ → Result (ℕ × ℕ)
after_first first bytes pos =
    if first == 0xFF
    then read_le 8 bytes pos
    else if first == 0xFE
    then read_le 4 bytes pos
    else if first == 0xFD
    then read_le 2 bytes pos
    else ok (first, pos)

unfoldable pub read_varint : Bytes → ℕ → Result (ℕ × ℕ)
unfolding after_first read_le read_array
read_varint bytes pos = elim (get_elem? bytes pos) [
  | none ↦ err varint_eof
  | some first ↦ after_first first bytes (pos + 1)
]
