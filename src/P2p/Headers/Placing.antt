-- ===== src/P2p/Headers/Placing.antt =====
-- `peer_hash_at` answers with the header that stands at the target height, and with the empty text
-- exactly where no reported header stands there (src/p2p.rs).
use bip110_crawler.Common.{
  ℕ, suc, ◌≡◌, ◌≢◌, ◌⊎◌, inl, inr, refl, sym, ap, ◌∙◌, true, false, List, [], ◌∷◌, ◌++◌, none, some,
  Option-cases, Bool-cases, get_elem?, All, list_eq, list_eq_refl, list_eq→eq, Bytes, ℤ, pos,
  pos_part, neg_part, ◌+ℤ◌, ◌-ℤ◌, ltb_ℤ, int_laws, arith,
}
use mathlib.Core.Option.{some-injective}
use mathlib.Core.Path.{ap₂}
use bip110_crawler.P2p.Headers.{PeerHeader, anchor, peer_hash_at, hash_hex}

-- Where a run of headers puts `h` at height `target`: the first header extends the block that the
-- locator lists at `base` (its first entry with that hash), and headers[0] sits at base + 1.
pub record Placed (headers : List PeerHeader) (locator : List (Bytes × ℤ)) (target : ℤ)
    (h : PeerHeader) : Type 0 where
  pub first : PeerHeader
  pub rest : List PeerHeader
  pub earlier : List (Bytes × ℤ)
  pub base : ℤ
  pub later : List (Bytes × ℤ)
  pub index : ℕ
  pub run : headers ≡ first ∷ rest
  pub offered : locator ≡ earlier ++ (first.prev, base) ∷ later
  pub not_earlier : All (λ (e : Bytes × ℤ). e.0 ≢ first.prev) earlier
  pub reported : get_elem? headers index ≡ some h
  pub height : target ≡ base +ℤ pos (suc index)

-- The entry that `anchor` finds.
record Found (prev : Bytes) (locator : List (Bytes × ℤ)) (base : ℤ) : Type 0 where
  earlier : List (Bytes × ℤ)
  later : List (Bytes × ℤ)
  offered : locator ≡ earlier ++ (prev, base) ∷ later
  not_earlier : All (λ (e : Bytes × ℤ). e.0 ≢ prev) earlier

ne→list_eq : (xs ys : Bytes) → xs ≢ ys → list_eq xs ys ≡ false
ne→list_eq xs ys h = elim (Bool-cases (list_eq xs ys)) [
  | inl e ↦ absurd (h (list_eq→eq xs ys e))
  | inr e ↦ e
]

anchor-Found :
    (prev : Bytes) (locator : List (Bytes × ℤ)) (base : ℤ)
    → anchor prev locator ≡ some base
    → Found prev locator base
unfolding anchor
anchor-Found prev [] base e = absurd (cc)
anchor-Found prev ((h, height) ∷ locator) base e = elim (Bool-cases (list_eq h prev)) [
  | inl q ↦
      let eb : height ≡ base = some-injective _ _ (rw q at e) in
      record {
        earlier = [];
        later = locator;
        offered = ap₂ (λ (p : Bytes) (b : ℤ). (p, b) ∷ locator) (list_eq→eq h prev q) eb;
        not_earlier = tt;
      }
  | inr q ↦
      let f = anchor-Found prev locator base (rw q at e) in
      record {
        earlier = (h, height) ∷ f.earlier;
        later = f.later;
        offered = ap (λ (l : List (Bytes × ℤ)). (h, height) ∷ l) f.offered;
        not_earlier = ((λ same. cc (rw same at q, list_eq_refl prev)), f.not_earlier);
      }
]

anchor-offered :
    (prev : Bytes) (base : ℤ) (earlier later : List (Bytes × ℤ))
    → All (λ (e : Bytes × ℤ). e.0 ≢ prev) earlier
    → anchor prev (earlier ++ (prev, base) ∷ later) ≡ some base
unfolding anchor
anchor-offered prev base [] later h = rw (list_eq_refl prev) refl
anchor-offered prev base ((g, height) ∷ earlier) later h =
    rw (ne→list_eq g prev h.0) (anchor-offered prev base earlier later h.1)

Placed-anchor :
    {headers : List PeerHeader} {locator : List (Bytes × ℤ)} {target : ℤ} {h : PeerHeader}
    → (p : Placed headers locator target h) → anchor p.first.prev locator ≡ some p.base
Placed-anchor p = rw p.offered (anchor-offered p.first.prev p.base p.earlier p.later p.not_earlier)

head_or : PeerHeader → List PeerHeader → PeerHeader
head_or d [] = d
head_or d (h ∷ hs) = h

-- A header that is placed sits `index + 1` blocks above the block that the locator anchors.
Placed-height :
    {first : PeerHeader} {rest : List PeerHeader} {locator : List (Bytes × ℤ)} {target : ℤ}
    {h : PeerHeader} {base : ℤ}
    → (p : Placed (first ∷ rest) locator target h) → anchor first.prev locator ≡ some base
    → target ≡ base +ℤ pos (suc p.index)
unfolding head_or
Placed-height {first} {locator} {base} p e =
    let same : first ≡ p.first = ap (head_or first) p.run in
    let eb : base ≡ p.base =
      some-injective _ _
        (sym e ∙ ap (λ (f : PeerHeader). anchor f.prev locator) same ∙ Placed-anchor p) in
    rw eb p.height

abbrev offset : ℤ → ℤ → ℤ
offset target base = target -ℤ base -ℤ pos 1

offset-placed :
    (base : ℤ) (i : ℕ) (target : ℤ) → target ≡ base +ℤ pos (suc i) → offset target base ≡ pos i
offset-placed base i target e = rw e (omega int_laws)

offset-back :
    (base target : ℤ)
    → ltb_ℤ (offset target base) (pos 0) ≡ false
    → target ≡ base +ℤ pos (suc (pos_part (offset target base)))
offset-back base target e = omega (int_laws, nonneg (offset target base) e)
  where
    nonneg : (a : ℤ) → ltb_ℤ a (pos 0) ≡ false → neg_part a ≡ 0
    nonneg a h = ground arith

negative : (i : ℕ) → ltb_ℤ (pos i) (pos 0) ≢ true
negative i h = ground arith

module _ (first : PeerHeader) (rest : List PeerHeader) (locator : List (Bytes × ℤ))
    (target base : ℤ) (e : anchor first.prev locator ≡ some base) where
  abbrev Unplaced : Type 0
  Unplaced = (h : PeerHeader) → ¬ Placed (first ∷ rest) locator target h

  unplaced_below : ltb_ℤ (offset target base) (pos 0) ≡ true → Unplaced
  unplaced_below q h p =
      let bad : ltb_ℤ (pos p.index) (pos 0) ≡ true =
        rw (offset-placed base p.index target (Placed-height p e)) at q in
      absurd (negative p.index bad)

  unplaced_above : get_elem? (first ∷ rest) (pos_part (offset target base)) ≡ none → Unplaced
  unplaced_above q h p =
      cc (rw (offset-placed base p.index target (Placed-height p e)) at q, p.reported)

  placed :
      (h : PeerHeader)
      → ltb_ℤ (offset target base) (pos 0) ≡ false
      → get_elem? (first ∷ rest) (pos_part (offset target base)) ≡ some h
      → Placed (first ∷ rest) locator target h
  placed h q r =
      let f = anchor-Found first.prev locator base e in
      record {
        first = first;
        rest = rest;
        earlier = f.earlier;
        base = base;
        later = f.later;
        index = pos_part (offset target base);
        run = refl;
        offered = f.offered;
        not_earlier = f.not_earlier;
        reported = r;
        height = offset-back base target q;
      }

-- For every run, locator and target: either some header is placed at the target and the answer is
-- its hash, or none is and the answer is empty.
pub peer_hash_at_correct :
    (headers : List PeerHeader) (locator : List (Bytes × ℤ)) (target : ℤ)
    → ((h : PeerHeader) × Placed headers locator target h
        × (peer_hash_at headers locator target ≡ hash_hex h.hash))
      ⊎ ((peer_hash_at headers locator target ≡ [])
          × ((h : PeerHeader) → ¬ Placed headers locator target h))
unfolding peer_hash_at
peer_hash_at_correct [] locator target = inr (refl, λ h p. absurd (cc p.run))
peer_hash_at_correct (first ∷ rest) locator target =
    elim (Option-cases (anchor first.prev locator)) [
      | inl q ↦ inr (
        rw (q, peer_hash_at) refl,
        λ h p. cc (
          q,
          ap (λ (f : PeerHeader). anchor f.prev locator) (ap (head_or first) p.run),
          Placed-anchor p,
        ),
      )
      | inr (base, q) ↦ elim (Bool-cases (ltb_ℤ (offset target base) (pos 0))) [
        | inl low ↦
            inr
              (rw (q, peer_hash_at, low) refl, unplaced_below first rest locator target base q low)
        | inr high ↦
            elim (Option-cases (get_elem? (first ∷ rest) (pos_part (offset target base)))) [
              | inl miss ↦ inr (
                rw (q, peer_hash_at, high, miss) refl,
                unplaced_above first rest locator target base q miss,
              )
              | inr (h, hit) ↦ inl (
                h,
                placed first rest locator target base q h high hit,
                rw (q, peer_hash_at, high, hit) refl,
              )
            ]
      ]
    ]
