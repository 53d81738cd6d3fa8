-- ===== src/P2p/Wire/Varint.antt =====
-- The CompactSize reader undoes the writer, stays inside the input and returns a u64 (src/p2p.rs).
use bip110_crawler.Common.{
  ℕ, ◌+◌, ◌%◌, ◌^◌, ◌<◌, ◌≡◌, refl, ap, ◌∙◌, subst, [], ◌∷◌, ◌++◌, some, arith, length, slice,
  Bytes, At, At-next, get_elem?-At, slice-At, to_le_bytes, from_le_bytes-to_le_bytes,
  length-to_le_bytes, ok, dec_lt, lt→ltb, le→ltb, le→leb, lt→leb, ne→==,
}
use native.Mathlib.Nat.{mod-eq_of_lt}
use bip110_crawler.Common.{
  Result-cases, from_le_bytes-lt, get_elem?-found, IsByte, from_le_bytes, slice-found, inl, inr,
  ◌≤◌, AreBytes,
}
use bip110_crawler.P2p.Wire.{write_varint, read_array, read_le, read_varint, after_first}

-- A fixed-width read returns the next bytes and moves past them.
pub read_array-At :
    {whole : Bytes} {pos : ℕ} (n : ℕ) (xs rest : Bytes)
    → length xs ≡ n
    → At whole pos (xs ++ rest)
    → read_array n whole pos ≡ ok (xs, pos + n)
unfolding read_array
read_array-At {whole} {pos} n xs rest e at =
    let found : slice whole pos (pos + n) ≡ some xs = rw (← e) (slice-At xs rest at) in
    rw (found, read_array) refl

read_le-At :
    {whole : Bytes} {pos : ℕ} (n v : ℕ) (rest : Bytes)
    → v < 256 ^ n
    → At whole pos (to_le_bytes n v ++ rest)
    → read_le n whole pos ≡ ok (v, pos + n)
unfolding read_le
read_le-At n v rest h at =
    rw (read_array-At n (to_le_bytes n v) rest (length-to_le_bytes n v) at)
      (rw (from_le_bytes-to_le_bytes n v h) refl)

-- A marker byte, and the little-endian number behind it.
marked :
    {whole : Bytes} {pos : ℕ} (first n v : ℕ) (rest : Bytes)
    → v < 256 ^ n
    → after_first first whole (pos + 1) ≡ read_le n whole (pos + 1)
    → At whole pos ((first ∷ []) ++ to_le_bytes n v ++ rest)
    → read_varint whole pos ≡ ok (v, pos + 1 + n)
unfolding read_varint
marked first n v rest h e at =
    rw (get_elem?-At at, read_varint) (e ∙ read_le-At n v rest h (At-next (first ∷ []) _ at))

-- What `write_varint` appends: the number itself, or a marker and a little-endian number.
data Shape (n : ℕ) (written : Bytes) : Type 0 where
  one : n < 0xFD → written ≡ n ∷ [] → Shape n written
  wide :
      (first w : ℕ)
      → n < 256 ^ w
      → ((bytes : Bytes) (pos : ℕ) → after_first first bytes pos ≡ read_le w bytes pos)
      → written ≡ (first ∷ []) ++ to_le_bytes w n
      → Shape n written

fits : (n m : ℕ) → n < m → n % m ≡ n
fits n m h = mod-eq_of_lt h

write_varint-Shape : (n : ℕ) → n < 2 ^ 64 → Shape n (write_varint [] n)
unfolding write_varint after_first
write_varint-Shape n h = elim (dec_lt n 0xFD) [
  | yes a ↦ Shape.one a (rw (lt→ltb n 0xFD a, fits n (256) (omega arith)))
  | no a ↦ elim (dec_lt 0xFFFF n) [
    | no b ↦
        Shape.wide 0xFD 2 (omega arith) (λ bytes pos. refl)
          (rw (
            le→ltb n 0xFD (omega arith),
            le→leb n 0xFFFF (omega arith),
            fits n (2 ^ 16) (omega arith),
          ))
    | yes b ↦ elim (dec_lt 0xFFFF_FFFF n) [
      | no c ↦
          Shape.wide 0xFE 4 (omega arith) (λ bytes pos. refl)
            (rw (
              le→ltb n 0xFD (omega arith),
              lt→leb n 0xFFFF b,
              le→leb n 0xFFFF_FFFF (omega arith),
              fits n (2 ^ 32) (omega arith),
            ))
      | yes c ↦
          Shape.wide 0xFF 8 h (λ bytes pos. refl)
            (rw (le→ltb n 0xFD (omega arith), lt→leb n 0xFFFF b, lt→leb n 0xFFFF_FFFF c))
    ]
  ]
]

first_lt : (n : ℕ) (bytes : Bytes) (pos : ℕ) → n < 0xFD → after_first n bytes pos ≡ ok (n, pos)
unfolding after_first
first_lt n bytes pos h =
    rw (ne→== n 0xFF (omega arith), ne→== n 0xFE (omega arith), ne→== n 0xFD (omega arith)) refl

read_varint-Shape :
    {whole : Bytes} {pos : ℕ} (n : ℕ) (written rest : Bytes)
    → Shape n written
    → At whole pos (written ++ rest)
    → read_varint whole pos ≡ ok (n, pos + length written)
unfolding read_varint
read_varint-Shape {whole} {pos} n written rest (Shape.one a e) at =
    let here : At whole pos ((n ∷ []) ++ rest) = subst (λ w. At whole pos (w ++ rest)) e at in
    rw (get_elem?-At here, read_varint) (first_lt n whole (pos + 1) a ∙ rw e refl)
read_varint-Shape {whole} {pos} n written rest (Shape.wide first w small e' e) at =
    let here : At whole pos ((first ∷ []) ++ to_le_bytes w n ++ rest) =
      subst (λ w. At whole pos (w ++ rest)) e at in
    marked first w n rest small (e' whole (pos + 1)) here
    ∙ rw e (ap (λ (p : ℕ). ok (n, p)) (omega (arith, length-to_le_bytes w n)))

-- Reading at the start of what `write_varint` appends gives the number, for every u64, and moves
-- past exactly those bytes.
pub read_varint-write_varint :
    {whole : Bytes} {pos : ℕ} (n : ℕ) (rest : Bytes)
    → n < 2 ^ 64
    → At whole pos (write_varint [] n ++ rest)
    → read_varint whole pos ≡ ok (n, pos + length (write_varint [] n))
read_varint-write_varint n rest h = read_varint-Shape n _ rest (write_varint-Shape n h)

-- A fixed-width read that succeeds stays inside the input and returns that many of its bytes.
pub read_array-found :
    (n : ℕ) (bytes : Bytes) (pos : ℕ) (out : Bytes) (p : ℕ)
    → AreBytes bytes
    → read_array n bytes pos ≡ ok (out, p)
    → (p ≡ pos + n) × (p ≤ length bytes) × (length out ≡ n) × AreBytes out
unfolding read_array
read_array-found n bytes pos out p h e = ground (arith, slice-found IsByte bytes pos (pos + n) out)

read_le-found :
    (n : ℕ) (bytes : Bytes) (pos v p : ℕ)
    → AreBytes bytes
    → read_le n bytes pos ≡ ok (v, p)
    → (p ≡ pos + n) × (p ≤ length bytes) × (v < 256 ^ n)
unfolding read_le
read_le-found n bytes pos v p h e = elim (Result-cases (read_array n bytes pos)) [
  | inl (x, q) ↦ absurd (cc (rw (q, read_le) at e))
  | inr ((out, p'), q) ↦
      let (at, inside, width, are) = read_array-found n bytes pos out p' h q in
      let got : ok (from_le_bytes out, p') ≡ ok (v, p) = rw (q, read_le) at e in
      ground (arith, from_le_bytes-lt out are)
]

-- A CompactSize number that is read is a u64, takes 1 to 9 bytes, and lies inside the input.
pub read_varint_bounds :
    (bytes : Bytes) (pos v p : ℕ)
    → AreBytes bytes
    → read_varint bytes pos ≡ ok (v, p)
    → (v < 2 ^ 64) × (pos < p) × (p ≤ pos + 9) × (p ≤ length bytes)
unfolding read_varint
read_varint_bounds bytes pos v p h e = grind (
  arith,
  read_le-found 8 bytes (pos + 1) v p,
  read_le-found 4 bytes (pos + 1) v p,
  read_le-found 2 bytes (pos + 1) v p,
  λ (first : ℕ). get_elem?-found IsByte bytes pos first,
)
