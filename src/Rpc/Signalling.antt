-- ===== src/Rpc/Signalling.antt =====
-- The scan for signalling blocks (src/rpc.rs: `signalling`). Heights are not negative; `header` is
-- what the two calls for a height give: the version in the block's header (0 where it is missing),
-- or a failed call. The two percentages, in floating point, are left out.
pub mod Period
use bip110_crawler.Common.{
  ℕ, zero, suc, ◌+◌, ◌-◌, ◌*◌, ◌/◌, ◌%◌, ◌^◌, max, Bool, List, [], ◌∷◌, if◌then◌else◌, ◌==◌, length,
  Result, ok, err, ◌>>=◌, ℤ, pos, negsuc,
}

pub record SignalStats : Type 0 where
  pub window : ℕ
  pub blocks_scanned : ℕ
  pub blocks_signalling : ℕ
  pub bit : ℕ
  pub tip_height : ℕ

-- `ver & (1 << bit) != 0`, in two's complement. The mask is an i64: in a release build the shift takes `bit`
-- modulo 64, and with overflow checks a greater one panics.
unfoldable pub signals : ℕ → ℤ → Bool
signals bit (pos n) = n / 2 ^ (bit % 64) % 2 == 1
signals bit (negsuc n) = n / 2 ^ (bit % 64) % 2 == 0

abbrev pub period_of : ℕ → ℕ
period_of window = max window 1

abbrev pub start_of : ℕ → ℕ → ℕ
start_of window tip = tip / period_of window * period_of window

module _ (header : ℕ → Result ℤ) (bit : ℕ) where
  -- The loop over `count` heights from `h` on: the signalling ones, and how many were scanned.
  unfoldable pub scan : ℕ → ℕ → Result (List ℕ × ℕ)
  scan zero h = ok ([], 0)
  scan (suc count) h = header h >>= λ version.
      (scan count (h + 1) >>= λ (heights, scanned).
      ok (if signals bit version then h ∷ heights else heights, scanned + 1))

  unfoldable pub signalling : ℕ → ℕ → Result (SignalStats × List ℕ)
  unfolding scan
  signalling window tip =
      scan (tip + 1 - start_of window tip) (start_of window tip) >>= λ (heights, scanned). ok (
        record {
          window = window;
          blocks_scanned = scanned;
          blocks_signalling = length heights;
          bit = bit;
          tip_height = tip;
        },
        heights,
      )
