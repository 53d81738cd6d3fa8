-- ===== src/P2p/Headers/Parsing.antt =====
-- The `headers` reply is parsed as it is written, and never to more than 2,000 headers (src/p2p.rs).
use bip110_crawler.Common.{
  ℕ, zero, suc, ◌+◌, ◌^◌, ◌≤◌, ◌<◌, ◌≡◌, refl, ap, subst, List, [], ◌∷◌, ◌++◌, map, some, inl, inr,
  Option-cases, Result-cases, length, take, All, min, slice, slice-At, slice_short, At, At-start,
  At-next, Bytes, arith, drop, take-append, drop-append, length-append, ◌∙◌,
}
use bip110_crawler.P2p.Wire.{write_varint, read_varint}
use bip110_crawler.P2p.Wire.Varint.{read_varint-write_varint}
use bip110_crawler.P2p.Headers.{
  PeerHeader, block_hash, peer_header, parse_headers_loop, parse_headers,
}

-- The entries of a `headers` message: each header of 80 bytes, then a transaction count of zero.
abbrev pub entries : List Bytes → Bytes
entries [] = []
entries (h ∷ hs) = h ++ (write_varint [] 0 ++ entries hs)

abbrev pub headers_payload : ℕ → List Bytes → Bytes
headers_payload count hs = write_varint [] count ++ entries hs

abbrev pub AreHeaders : List Bytes → Type 0
AreHeaders = All (λ h. length h ≡ 80)

-- A header by its layout.
pub record RawHeader : Type 0 where
  pub version : Bytes
  pub parent : Bytes
  pub rest : Bytes

abbrev pub IsHeader : RawHeader → Type 0
IsHeader h = (length h.version ≡ 4) × (length h.parent ≡ 32) × (length h.rest ≡ 44)

abbrev pub header_bytes : RawHeader → Bytes
header_bytes h = h.version ++ (h.parent ++ h.rest)

AreHeaders-layout : (hs : List RawHeader) → All IsHeader hs → AreHeaders (map header_bytes hs)
AreHeaders-layout [] a = tt
AreHeaders-layout (h ∷ hs) (is, a) = (
  omega (arith, length-append h.version (h.parent ++ h.rest), length-append h.parent h.rest, is),
  AreHeaders-layout hs a,
)

module _ (sha256 : Bytes → Bytes) where
  loop-le :
      (count : ℕ) (payload : Bytes) (at : ℕ)
      → length (parse_headers_loop sha256 count payload at) ≤ count
  unfolding parse_headers_loop
  loop-le zero payload at = omega arith
  loop-le (suc count) payload at = elim (Option-cases (slice payload at (at + 80))) [
    | inl q ↦ rw (q, parse_headers_loop) (omega arith)
    | inr (hdr, q) ↦ elim (Result-cases (read_varint payload (at + 80))) [
      | inl (x, r) ↦ rw (q, r, parse_headers_loop) (omega arith)
      | inr ((v, at'), r) ↦ rw (q, r, parse_headers_loop) (omega (arith, loop-le count payload at'))
    ]
  ]

  loop-entries :
      (count : ℕ) (hs : List Bytes) {payload : Bytes} {at : ℕ}
      → AreHeaders hs
      → At payload at (entries hs)
      → parse_headers_loop sha256 count payload at ≡ map (peer_header sha256) (take count hs)
  unfolding parse_headers_loop
  loop-entries zero hs a c = refl
  loop-entries (suc count) [] a c = rw (slice_short 80 [] c (omega arith), parse_headers_loop) refl
  loop-entries (suc count) (h ∷ hs) {payload} {at} (e, a) c =
      let found : slice payload at (at + 80) ≡ some h =
        subst (λ (n : ℕ). slice payload at (at + n) ≡ some h) e (slice-At h _ c) in
      let c' : At payload (at + 80) (write_varint [] 0 ++ entries hs) =
        subst (λ (n : ℕ). At payload (at + n) (write_varint [] 0 ++ entries hs)) e
          (At-next h _ c) in
      rw (found, parse_headers_loop, read_varint-write_varint 0 (entries hs) (omega arith) c')
        (ap (λ r. peer_header sha256 h ∷ r)
          (loop-entries count hs a (At-next (write_varint [] 0) _ c')))

  -- Whatever a peer sends, at most 2,000 headers come out.
  pub length-parse_headers : (payload : Bytes) → length (parse_headers sha256 payload) ≤ 2000
  unfolding parse_headers
  length-parse_headers payload = elim (Result-cases (read_varint payload 0)) [
    | inl (x, q) ↦ rw (q, parse_headers) (omega arith)
    | inr ((count, at), q) ↦
        rw (q, parse_headers) (omega (arith, loop-le (min count 2000) payload at))
  ]

  headers-parsed :
      (count : ℕ) (hs : List Bytes)
      → count < 2 ^ 64
      → AreHeaders hs
      → parse_headers sha256 (headers_payload count hs)
        ≡ map (peer_header sha256) (take (min count 2000) hs)
  unfolding parse_headers
  headers-parsed count hs small a =
      let start = At-start (headers_payload count hs) in
      rw (read_varint-write_varint count (entries hs) small start, parse_headers)
        (loop-entries (min count 2000) hs a (At-next (write_varint [] count) _ start))

  -- What a header says of itself: its block hash is the double SHA-256 of its bytes.
  abbrev pub announced : RawHeader → PeerHeader
  announced h = record { hash = sha256 (sha256 (header_bytes h)); prev = h.parent }

  peer_header-announced :
      (h : RawHeader) → IsHeader h → peer_header sha256 (header_bytes h) ≡ announced h
  unfolding peer_header block_hash
  peer_header-announced h is =
      let behind : drop 4 (header_bytes h) ≡ h.parent ++ h.rest =
        subst (λ (n : ℕ). drop n (header_bytes h) ≡ h.parent ++ h.rest) is.0
          (drop-append h.version (h.parent ++ h.rest)) in
      let parent : take 32 (h.parent ++ h.rest) ≡ h.parent =
        subst (λ (n : ℕ). take n (h.parent ++ h.rest) ≡ h.parent) is.1
          (take-append h.parent h.rest) in
      ap (λ (b : Bytes). record { hash = sha256 (sha256 (header_bytes h)); prev = b })
        (ap (take 32) behind ∙ parent)

  all-announced :
      (n : ℕ) (hs : List RawHeader)
      → All IsHeader hs
      → map (peer_header sha256) (take n (map header_bytes hs)) ≡ map announced (take n hs)
  all-announced zero hs a = refl
  all-announced (suc n) [] a = refl
  all-announced (suc n) (h ∷ hs) (is, a) =
      rw (peer_header-announced h is, all-announced n hs a) refl

  -- From a message that announces `count` and carries the headers `hs`, each laid out as its version of 4
  -- bytes, its parent's hash of 32 and 44 more bytes, the parser takes the first `count` of them, 2,000 at
  -- most, in order: of each the double SHA-256 of its 80 bytes, and its parent's hash.
  pub parse_headers-headers_payload :
      (count : ℕ) (hs : List RawHeader)
      → count < 2 ^ 64
      → All IsHeader hs
      → parse_headers sha256 (headers_payload count (map header_bytes hs))
        ≡ map announced (take (min count 2000) hs)
  parse_headers-headers_payload count hs small a =
      headers-parsed count (map header_bytes hs) small (AreHeaders-layout hs a)
      ∙ all-announced (min count 2000) hs a
