-- ===== src/P2p/Frame/Accepts.antt =====
-- What a frame that `read_message` accepts looks like (src/p2p.rs).
use bip110_crawler.Common.{
  ℕ, zero, suc, ◌≤◌, ◌≡◌, refl, sym, ap, ◌∙◌, [], ◌∷◌, ◌++◌, length, length-take, take, drop,
  list_eq→eq, Bytes, from_le_bytes, ok, ◌>>=◌, Result-cases, arith, inl, inr,
}
use bip110_crawler.P2p.Frame.{
  read_exact, RawMessage, max_frame, after_header, read_payload, read_message,
}

take-append-drop : (n : ℕ) (xs : Bytes) → xs ≡ take n xs ++ drop n xs
take-append-drop zero xs = refl
take-append-drop (suc n) [] = refl
take-append-drop (suc n) (x ∷ xs) = ap (λ r. x ∷ r) (take-append-drop n xs)

read_exact-splits :
    (n : ℕ) (stream out rest : Bytes)
    → read_exact n stream ≡ ok (out, rest)
    → (stream ≡ out ++ rest) × (length out ≡ n)
unfolding read_exact
read_exact-splits n stream out rest e =
    ground (arith, take-append-drop n stream, length-take n stream)

read_payload-splits :
    (n : ℕ) (stream out rest : Bytes)
    → read_payload n stream ≡ ok (out, rest)
    → (stream ≡ out ++ rest) × (length out ≡ n)
unfolding read_payload
read_payload-splits n stream out rest e = ground (arith, read_exact-splits n stream out rest)

pub record IsFrame (magic : Bytes) (header payload rest stream : Bytes) : Type 0 where
  pub splits : stream ≡ header ++ (payload ++ rest)
  pub width : length header ≡ 24
  pub marked : take 4 header ≡ magic
  pub counted : from_le_bytes (take 4 (drop 16 header)) ≡ length payload
  pub bounded : length payload ≤ max_frame

after_header-accepts :
    (magic header stream : Bytes) (m : RawMessage) (rest : Bytes)
    → after_header magic header stream ≡ ok (m, rest)
    → (take 4 header ≡ magic)
      × (from_le_bytes (take 4 (drop 16 header)) ≤ max_frame)
      × (read_payload (from_le_bytes (take 4 (drop 16 header))) stream ≡ ok (m.payload, rest))
unfolding after_header
after_header-accepts magic header stream m rest e = ground (arith, list_eq→eq (take 4 header) magic)

-- A message that is accepted was framed by a 24-byte header with the network's magic, whose length
-- field is the payload's length and at most 4 MiB; the stream goes on behind the payload.
pub read_message_accepts :
    (stream magic : Bytes) (m : RawMessage) (rest : Bytes)
    → read_message stream magic ≡ ok (m, rest)
    → (header : Bytes) × IsFrame magic header m.payload rest stream
unfolding read_message
read_message_accepts stream magic m rest e = elim (Result-cases (read_exact 24 stream)) [
  | inl (x, q) ↦ absurd (cc (rw (q, ◌>>=◌) at e))
  | inr ((header, body), q) ↦
      let (s, w) = read_exact-splits 24 stream header body q in
      let (mk, b, p) = after_header-accepts magic header body m rest (rw q at e) in
      let (s', c) = read_payload-splits _ body m.payload rest p in
      (
        header,
        record {
          splits = s ∙ ap (λ b. header ++ b) s';
          width = w;
          marked = mk;
          counted = sym c;
          bounded = omega arith;
        },
      )
]
