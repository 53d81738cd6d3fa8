-- ===== src/Rpc/Replies/Fees.antt =====
-- The mempool's fee rates (src/rpc.rs: bucket_histogram, next_block_feerate, mempool_snapshot). f64 and
-- its operations are parameters; sizes are positive, as the caller drops the others.
use bip110_crawler.Common.{
  ℕ, zero, suc, ◌+◌, ◌%◌, ◌^◌, Bool, not, List, [], ◌∷◌, Option, none, some, if◌then◌else◌, ltb,
  leb, length, replicate, sort_with, Result, ok, ◌>>=◌, ℤ, pos, pos_part, leb_ℤ,
}
use bip110_crawler.Rpc.{unwrap_or}

pub record FeeBucket (F : Type 0) : Type 0 where
  pub min_feerate : F
  pub max_feerate : Option F
  pub count : ℕ
  pub vsize : ℕ

pub record MempoolSnapshot (F : Type 0) : Type 0 where
  pub pending : ℕ
  pub vsize : ℤ
  pub usage_bytes : ℤ
  pub total_fee : F
  pub min_relay_feerate : F
  pub histogram : List (FeeBucket F)
  pub next_block_feerate : Option F

-- FEE_BUCKET_EDGES and BLOCK_VSIZE
abbrev pub fee_bucket_edges : List ℕ
fee_bucket_edges =
    1 ∷ 2 ∷ 3 ∷ 4 ∷ 5 ∷ 6 ∷ 8 ∷ 10 ∷ 12 ∷ 15 ∷ 20 ∷ 30 ∷ 40 ∷ 50 ∷ 60 ∷ 70 ∷ 80 ∷ 100 ∷ 120 ∷ 150
    ∷ 200 ∷ 300 ∷ 400 ∷ 500 ∷ 600 ∷ 700 ∷ 800 ∷ 900 ∷ 1000 ∷ []

abbrev pub block_vsize : ℕ
block_vsize = 1000000

-- The mempool's two replies.
pub record MempoolReply (F : Type 0) : Type 0 where
  pub size : Option ℕ
  pub bytes : Option ℤ
  pub usage : Option ℤ
  pub total_fee : Option F
  pub mempoolminfee : Option F

pub record EntryReply (F : Type 0) : Type 0 where
  pub vsize : Option ℤ
  pub base_fee : Option F

module _ {F : Type 0} (lt : F → F → Bool) (of_nat : ℕ → F) where
  unfoldable pub fee_band : List ℕ → F → ℕ
  fee_band [] rate = 0
  fee_band (e ∷ edges) rate = if lt rate (of_nat e) then 0 else suc (fee_band edges rate)

  -- `counts[idx] += 1; vsizes[idx] += vs`
  unfoldable pub add_fee : ℕ → ℕ → List (ℕ × ℕ) → List (ℕ × ℕ)
  add_fee i vs [] = []
  add_fee zero vs ((count, size) ∷ bands) = (count + 1, size + vs) ∷ bands
  add_fee (suc i) vs (band ∷ bands) = band ∷ add_fee i vs bands

  unfoldable pub tally_fees : List (F × ℕ) → List (ℕ × ℕ) → List (ℕ × ℕ)
  unfolding fee_band add_fee
  tally_fees [] bands = bands
  tally_fees ((rate, vs) ∷ rates) bands =
      tally_fees rates (add_fee (fee_band fee_bucket_edges rate) vs bands)

  unfoldable pub fee_buckets : F → List ℕ → List (ℕ × ℕ) → List (FeeBucket F)
  fee_buckets lo edges [] = []
  fee_buckets lo [] ((count, size) ∷ bands) =
      let rest = fee_buckets lo [] bands in
      if ltb 0 count
      then record { min_feerate = lo; max_feerate = none; count = count; vsize = size } ∷ rest
      else rest
  fee_buckets lo (e ∷ edges) ((count, size) ∷ bands) =
      let rest = fee_buckets (of_nat e) edges bands in
      if ltb 0 count
      then record { min_feerate = lo; max_feerate = some (of_nat e); count = count; vsize = size }
        ∷ rest
      else rest

  unfoldable pub bucket_histogram : List (F × ℕ) → List (FeeBucket F)
  unfolding tally_fees fee_buckets
  bucket_histogram rates =
      fee_buckets (of_nat 0) fee_bucket_edges
        (tally_fees rates (replicate (length fee_bucket_edges + 1) (0, 0)))

  -- The walk, with the size that has been covered.
  unfoldable pub fill_block : ℕ → List (F × ℕ) → Option F
  fill_block acc [] = none
  fill_block acc ((rate, vs) ∷ sorted) =
      let rest = fill_block (acc + vs) sorted in
      if leb block_vsize (acc + vs) then some rate else rest

  -- Highest fee rate first; rates that do not compare stay as they are.
  unfoldable pub next_block_feerate : List (F × ℕ) → Option F
  unfolding fill_block
  next_block_feerate rates =
      fill_block 0 (sort_with (λ (a : F × ℕ) (b : F × ℕ). not (lt a.0 b.0)) rates)

  module _ (rate_of : F → ℤ → F) (relay_rate : F → F) where
    unfoldable pub fee_rates : List (EntryReply F) → List (F × ℕ)
    fee_rates [] = []
    fee_rates (e ∷ entries) =
        let vs = unwrap_or (pos 0) e.vsize in
        let rest = fee_rates entries in
        if leb_ℤ vs (pos 0)
        then rest
        else (rate_of (unwrap_or (of_nat 0) e.base_fee) vs, pos_part vs) ∷ rest

    -- `rate_of fee vs` is `fee * 1e8 / vs`, and `relay_rate fee` is `fee * 1e8 / 1000`.
    unfoldable pub mempool_snapshot :
        Result (MempoolReply F) → Result (Option (List (EntryReply F))) → Result (MempoolSnapshot F)
    unfolding fee_rates bucket_histogram next_block_feerate
    mempool_snapshot getmempoolinfo getrawmempool = getmempoolinfo >>= λ info.
        (getrawmempool >>= λ raw.
        let rates = fee_rates (unwrap_or [] raw) in
        ok (record {
          pending = unwrap_or 0 info.size % 2 ^ 32;
          vsize = unwrap_or (pos 0) info.bytes;
          usage_bytes = unwrap_or (pos 0) info.usage;
          total_fee = unwrap_or (of_nat 0) info.total_fee;
          min_relay_feerate = relay_rate (unwrap_or (of_nat 0) info.mempoolminfee);
          histogram = bucket_histogram rates;
          next_block_feerate = next_block_feerate rates;
        }))
