-- ===== src/Serve/Query/Decodes.antt =====
-- A query that a client has encoded is decoded to what the client meant (src/serve.rs).
use bip110_crawler.Common.{
  ℕ, ◌+◌, ◌*◌, ◌%◌, ◌<◌, ◌≡◌, ◌≢◌, refl, ap, ◌∙◌, List, [], ◌∷◌, ◌++◌, some, All, Text, Bytes,
  to_digit_16, store, arith, ne→==,
}
use bip110_crawler.Serve.Query.{
  hex_pair, plain, pct_bytes, split_on, split_once, pct_decode, add_pair, add_pairs, parse_query,
}

-- The ways in which a client may write bytes: as they are, a blank as `+`, or escaped with digits of
-- either case.
pub data Encodes : Bytes → Bytes → Type 0 where
  end : Encodes [] []
  as_is : {c : ℕ} {s bs : Bytes} → c ≢ b'%' → c ≢ b'+' → Encodes s bs → Encodes (c ∷ s) (c ∷ bs)
  blank : {s bs : Bytes} → Encodes s bs → Encodes (b'+' ∷ s) (b' ' ∷ bs)
  escaped :
      {c d hi lo : ℕ} {s bs : Bytes}
      → to_digit_16 c ≡ some hi
      → to_digit_16 d ≡ some lo
      → Encodes s bs
      → Encodes (b'%' ∷ c ∷ d ∷ s) ((hi * 16 + lo) ∷ bs)

pct_bytes-plain : (c : ℕ) (s : Bytes) → c ≢ b'%' → pct_bytes (c ∷ s) ≡ plain c ∷ pct_bytes s
unfolding pct_bytes
pct_bytes-plain c [] h = refl
pct_bytes-plain c (d ∷ []) h = refl
pct_bytes-plain c (d ∷ e ∷ s) h = rw (ne→== c b'%' h) refl

to_digit_16-lt : (c n : ℕ) → to_digit_16 c ≡ some n → n < 16
unfolding to_digit_16
to_digit_16-lt c n h = ground arith

plain_same : (c : ℕ) → c ≢ b'+' → plain c ≡ c
unfolding plain
plain_same c h = rw (ne→== c b'+' h) refl

plain_blank : plain b'+' ≡ b' '
unfolding plain
plain_blank = refl

pct_bytes_escape :
    (c d hi lo : ℕ) (s : Bytes)
    → to_digit_16 c ≡ some hi
    → to_digit_16 d ≡ some lo
    → pct_bytes (b'%' ∷ c ∷ d ∷ s) ≡ (hi * 16 + lo) ∷ pct_bytes s
unfolding pct_bytes hex_pair
pct_bytes_escape c d hi lo s h k =
    let small : (hi * 16 + lo) % 256 ≡ hi * 16 + lo =
      omega (arith, to_digit_16-lt c hi h, to_digit_16-lt d lo k) in
    rw (h, k, small) refl

pub pct_bytes-Encodes : {s bs : Bytes} → Encodes s bs → pct_bytes s ≡ bs
unfolding pct_bytes
pct_bytes-Encodes end = refl
pct_bytes-Encodes (as_is {c} {s} h k e) =
    rw (pct_bytes-plain c s h, plain_same c k) (ap (λ r. c ∷ r) (pct_bytes-Encodes e))
pct_bytes-Encodes (blank {s} e) =
    rw (pct_bytes-plain b'+' s (omega arith), plain_blank)
      (ap (λ r. b' ' ∷ r) (pct_bytes-Encodes e))
pct_bytes-Encodes (escaped {c} {d} {hi} {lo} {s} h k e) =
    pct_bytes_escape c d hi lo s h k ∙ ap (λ r. (hi * 16 + lo) ∷ r) (pct_bytes-Encodes e)

-- None of the bytes is `sep`.
abbrev pub Free : ℕ → Bytes → Type 0
Free sep s = All (λ c. c ≢ sep) s

-- A query that spells these pairs, in order.
pub data Spells : Bytes → List (Bytes × Bytes) → Type 0 where
  one :
      {k v kb vb : Bytes}
      → Encodes k kb
      → Encodes v vb
      → Free b'=' k
      → Free b'&' (k ++ b'=' ∷ v)
      → Spells (k ++ b'=' ∷ v) ((kb, vb) ∷ [])
  more :
      {k v kb vb q : Bytes} {ps : List (Bytes × Bytes)}
      → Encodes k kb
      → Encodes v vb
      → Free b'=' k
      → Free b'&' (k ++ b'=' ∷ v)
      → Spells q ps
      → Spells ((k ++ b'=' ∷ v) ++ b'&' ∷ q) ((kb, vb) ∷ ps)

split_on-Free : (sep : ℕ) (xs : Bytes) → Free sep xs → split_on sep xs ≡ (xs, [])
unfolding split_on
split_on-Free sep [] f = refl
split_on-Free sep (x ∷ xs) f = rw (ne→== x sep f.0, split_on-Free sep xs f.1) refl

split_on-append :
    (sep : ℕ) (xs ys : Bytes)
    → Free sep xs
    → split_on sep (xs ++ sep ∷ ys) ≡ (xs, (split_on sep ys).0 ∷ (split_on sep ys).1)
unfolding split_on
split_on-append sep [] ys f = ground arith
split_on-append sep (x ∷ xs) ys f = rw (ne→== x sep f.0, split_on-append sep xs ys f.1) refl

split_once-append :
    (sep : ℕ) (k v : Bytes) → Free sep k → split_once sep (k ++ sep ∷ v) ≡ some (k, v)
unfolding split_once
split_once-append sep [] v f = ground arith
split_once-append sep (x ∷ k) v f =
    rw (ne→== x sep f.0, split_once-append sep k v f.1, split_once) refl

module _ (from_utf8_lossy : Bytes → Text) where
  add_pair-split :
      (k v : Bytes) (m : List (Text × Text))
      → Free b'=' k
      → add_pair from_utf8_lossy (k ++ b'=' ∷ v) m
        ≡ store (pct_decode from_utf8_lossy k) (pct_decode from_utf8_lossy v) m
  unfolding add_pair split_once
  add_pair-split [] v m f = refl
  add_pair-split (x ∷ k) v m f =
      rw (ne→== x b'=' f.0, split_once-append b'=' k v f.1, add_pair, split_once) refl

  -- The map of the pairs; a later pair replaces an earlier one with its key.
  pub meant : List (Bytes × Bytes) → List (Text × Text) → List (Text × Text)
  meant [] m = m
  meant ((k, v) ∷ ps) m = meant ps (store (from_utf8_lossy k) (from_utf8_lossy v) m)

  decoded :
      (k v kb vb : Bytes) (m : List (Text × Text))
      → Encodes k kb
      → Encodes v vb
      → store (pct_decode from_utf8_lossy k) (pct_decode from_utf8_lossy v) m
        ≡ store (from_utf8_lossy kb) (from_utf8_lossy vb) m
  unfolding pct_decode
  decoded k v kb vb m h e = rw (pct_bytes-Encodes h, pct_bytes-Encodes e) refl

  add_pairs-Spells :
      {q : Bytes} {ps : List (Bytes × Bytes)} (m : List (Text × Text))
      → Spells q ps
      → add_pairs from_utf8_lossy ((split_on b'&' q).0 ∷ (split_on b'&' q).1) m ≡ meant ps m
  unfolding add_pairs meant
  add_pairs-Spells m (one {k} {v} {kb} {vb} h e f g) =
      rw (split_on-Free b'&' (k ++ b'=' ∷ v) g, add_pair-split k v m f, decoded k v kb vb m h e)
        refl
  add_pairs-Spells m (more {k} {v} {kb} {vb} {q} {ps} h e f g rest) =
      let parts = split_on b'&' q in
      ap (λ (s : Bytes × List Bytes). add_pairs from_utf8_lossy (s.0 ∷ s.1) m)
        (split_on-append b'&' (k ++ b'=' ∷ v) q g)
      ∙ ap (add_pairs from_utf8_lossy (parts.0 ∷ parts.1))
          (add_pair-split k v m f ∙ decoded k v kb vb m h e)
      ∙ add_pairs-Spells (store (from_utf8_lossy kb) (from_utf8_lossy vb) m) rest

  -- A query that spells pairs, in any mixture of plain bytes, `+` for a blank and escapes in either
  -- case, is parsed to the map of these pairs.
  pub parse_query-Spells :
      {q : Bytes} {ps : List (Bytes × Bytes)}
      → Spells q ps
      → parse_query from_utf8_lossy q ≡ meant ps []
  unfolding parse_query
  parse_query-Spells s = add_pairs-Spells [] s
