-- ===== src/P2p/Headers/HashHex.antt =====
-- The displayed hash has two digits for each byte, and determines the bytes (src/p2p.rs).
use bip110_crawler.Common.{
  ◌*◌, ◌/◌, ◌%◌, ◌≡◌, refl, sym, ap, ◌∙◌, [], ◌∷◌, some, length, Bytes, AreBytes, IsByte, hex_digit,
  from_hex_2, from_hex_2-hex_byte, length-reverse, All-append, arith,
}
use mathlib.Core.Option.{some-injective}
use mathlib.Core.Path.{ap₂}
use mathlib.Core.List.{reverse, reverse-reverse, reverse-append}
use bip110_crawler.P2p.Headers.{hex_bytes, hash_hex}

pub length-hex_bytes : (bs : Bytes) → length (hex_bytes bs) ≡ 2 * length bs
unfolding hex_bytes
length-hex_bytes [] = omega arith
length-hex_bytes (b ∷ bs) = omega (arith, length-hex_bytes bs)

pub length-hash_hex : (h : Bytes) → length (hash_hex h) ≡ 2 * length h
unfolding hash_hex
length-hash_hex h = omega (arith, length-hex_bytes (reverse h), length-reverse h)

hex_bytes_injective : (a b : Bytes) → AreBytes a → AreBytes b → hex_bytes a ≡ hex_bytes b → a ≡ b
unfolding hex_bytes
hex_bytes_injective [] [] ha hb e = refl
hex_bytes_injective [] (y ∷ b) ha hb e = absurd (cc)
hex_bytes_injective (x ∷ a) [] ha hb e = absurd (cc)
hex_bytes_injective (x ∷ a) (y ∷ b) ha hb e =
    let hi : hex_digit (x / 16) ≡ hex_digit (y / 16) = cc in
    let lo : hex_digit (x % 16) ≡ hex_digit (y % 16) = cc in
    let tail : hex_bytes a ≡ hex_bytes b = cc in
    let same : some x ≡ some y =
      sym (from_hex_2-hex_byte x ha.0) ∙ ap₂ from_hex_2 hi lo ∙ from_hex_2-hex_byte y hb.0 in
    ap₂ ◌∷◌ (some-injective _ _ same) (hex_bytes_injective a b ha.1 hb.1 tail)

pub reverse-AreBytes : (bs : Bytes) → AreBytes bs → AreBytes (reverse bs)
reverse-AreBytes [] h = tt
reverse-AreBytes (b ∷ bs) h =
    rw (reverse-append (b ∷ []) bs)
      (All-append IsByte (reverse bs) (b ∷ []) (reverse-AreBytes bs h.1) (h.0, tt))

-- Two peers show the same chain hash only if their blocks have the same hash.
pub hash_hex_injective : (a b : Bytes) → AreBytes a → AreBytes b → hash_hex a ≡ hash_hex b → a ≡ b
unfolding hash_hex
hash_hex_injective a b ha hb e =
    sym (reverse-reverse a)
    ∙ ap reverse (
        hex_bytes_injective (reverse a) (reverse b) (reverse-AreBytes a ha) (reverse-AreBytes b hb)
          e)
    ∙ reverse-reverse b
