-- ===== src/Rpc/Signalling/Period.antt =====
-- The scan covers the running period, and finds exactly its signalling blocks (src/rpc.rs).
use bip110_crawler.Common.{
  ℕ, suc, ◌+◌, ◌-◌, ◌/◌, ◌%◌, ◌^◌, ◌≤◌, ◌<◌, ◌≡◌, inl, inr, refl, sym, ap, ◌∙◌, subst, Bool, true,
  false, not, ◌||◌, List, [], ◌∷◌, if◌then◌else◌, ◌==◌, ==_iff, length, Bool-cases, ok-injective,
  Result, ok, ℤ, pos, negsuc, arith,
}
use bip110_crawler.Rpc.Signalling.{SignalStats, signals, period_of, start_of}

abbrev pub lists : List ℕ → ℕ → Bool
lists [] h = false
lists (x ∷ heights) h = (x == h) || lists heights h

-- The bit of a version in two's complement, where the complement of a negative one is `n`.
abbrev pub has_bit : ℕ → ℤ → Bool
has_bit bit (pos n) = n / 2 ^ bit % 2 == 1
has_bit bit (negsuc n) = not (n / 2 ^ bit % 2 == 1)

module _ (header : ℕ → Result ℤ) (bit : ℕ) where
  -- The code's test holds of the block at a height.
  abbrev Tested : ℕ → Type 0
  Tested h = (version : ℤ) × (header h ≡ ok version) × (signals bit version ≡ true)

  -- The version of the block at a height has the bit.
  abbrev pub SignalsAt : ℕ → Type 0
  SignalsAt h = (version : ℤ) × (header h ≡ ok version) × (has_bit bit version ≡ true)

  -- What a scan of `count` heights from `from` on has found.
  record Scanned (from count : ℕ) (heights : List ℕ) (scanned : ℕ) : Type 0 where
    counted : scanned ≡ count
    sound : (h : ℕ) → lists heights h ≡ true → (from ≤ h) × (h < from + count) × Tested h
    complete : (h : ℕ) → from ≤ h → h < from + count → Tested h → lists heights h ≡ true
    no_more : length heights ≤ count

  extend :
      (from count : ℕ) (hs : List ℕ) (k : ℕ) (version : ℤ)
      → header from ≡ ok version
      → Scanned (from + 1) count hs k
      → Scanned from (suc count) (if signals bit version then from ∷ hs else hs) (k + 1)
  extend from count hs k version p s = elim (Bool-cases (signals bit version)) [
    | inl y ↦ rw y (record {
      counted = omega (arith, s.counted);
      sound = λ h l. elim (Bool-cases (from == h)) [
        | inl here ↦
            let q = (==_iff from h).0 here in
            (omega arith, omega arith, subst Tested q (version, p, y))
        | inr later ↦ let (a, b, c) = s.sound h (rw later at l) in (omega arith, omega arith, c)
      ];
      complete = λ h a b c. elim (Bool-cases (from == h)) [
        | inl here ↦ rw here refl
        | inr later ↦ rw later (s.complete h (ground arith) (omega arith) c)
      ];
      no_more = omega (arith, s.no_more);
    })
    | inr n ↦ rw n (record {
      counted = omega (arith, s.counted);
      sound = λ h l. let (a, b, c) = s.sound h l in (omega arith, omega arith, c);
      complete = λ h a b c. elim (Bool-cases (from == h)) [
        | inl here ↦ absurd (silent h version p n ((==_iff from h).0 here) c)
        | inr later ↦ s.complete h (ground arith) (omega arith) c
      ];
      no_more = omega (arith, s.no_more);
    })
  ]
    where
      silent :
          (h : ℕ) (version : ℤ)
          → header from ≡ ok version
          → signals bit version ≡ false
          → from ≡ h
          → ¬ Tested h
      silent h version p n q (v, r, y) =
          let same : version ≡ v = ok-injective (sym p ∙ ap header q ∙ r) in
          absurd (cc (n, y, ap (signals bit) same))

  -- A scan that succeeds covers the running period up to the tip: its first height is a multiple of
  -- the period, at most one period is scanned, and the heights that it lists are exactly those from
  -- the first one to the tip whose header sets the bit.
  pub record Covers (window tip : ℕ) (stats : SignalStats) (heights : List ℕ) : Type 0 where
    pub aligned : start_of window tip % period_of window ≡ 0
    pub reaches : start_of window tip ≤ tip
    pub whole : stats.blocks_scanned ≡ tip + 1 - start_of window tip
    pub within : stats.blocks_scanned ≤ period_of window
    pub tally :
        (stats.blocks_signalling ≡ length heights)
        × (stats.blocks_signalling ≤ stats.blocks_scanned)
    pub sound :
        (h : ℕ) → lists heights h ≡ true → (start_of window tip ≤ h) × (h ≤ tip) × SignalsAt h
    pub complete :
        (h : ℕ) → start_of window tip ≤ h → h ≤ tip → SignalsAt h → lists heights h ≡ true
