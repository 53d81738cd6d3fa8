-- ===== src/Rpc/Blocks.antt =====
-- Blocks for the explorer (src/rpc.rs: `block_info`, `recent_blocks`, `blocks_at_heights`,
-- `block_stats`). What the node replies is a parameter, as decoded JSON; heights are not negative.
use bip110_crawler.Common.{
  ℕ, zero, suc, Bool, List, [], ◌∷◌, Option, none, some, Text, ℤ, pos, length, Result, ok, err,
  ◌>>=◌, not_text,
}
use bip110_crawler.Rpc.{unwrap_or}
use bip110_crawler.Rpc.Signalling.{signals}

pub record BlockStats : Type 0 where
  pub total_fee : ℤ
  pub subsidy : ℤ
  pub avg_feerate : ℤ
  pub median_feerate : ℤ
  pub min_feerate : ℤ
  pub max_feerate : ℤ
  pub feerate_percentiles : List ℤ
  pub total_out : ℤ
  pub avg_tx_size : ℤ
  pub ins : ℤ
  pub outs : ℤ

pub record BlockInfo : Type 0 where
  pub height : ℕ
  pub hash : Text
  pub time : ℤ
  pub version : ℤ
  pub signals : Bool
  pub tx_count : ℕ
  pub size : ℤ
  pub weight : ℤ
  pub miner : Text

-- The reply to `getblock` at verbosity 1.
pub record BlockReply : Type 0 where
  pub version : Option ℤ
  pub time : Option ℤ
  pub size : Option ℤ
  pub weight : Option ℤ
  pub tx : Option (List (Option Text))

-- `filter_map`
unfoldable pub keep_some {ℓ} : {A : Type ℓ} → List (Option A) → List A
keep_some [] = []
keep_some (none ∷ xs) = keep_some xs
keep_some (some a ∷ xs) = a ∷ keep_some xs

-- `unwrap_or_default` on a result of text.
unfoldable pub ok_or_empty : Result Text → Text
ok_or_empty (ok t) = t
ok_or_empty (err e) = []

unfoldable pub as_text : Option Text → Result Text
as_text none = err not_text
as_text (some t) = ok t

module _ (getblockhash : ℕ → Result (Option Text)) (getblock : Text → Result BlockReply)
    (coinbase_tag : Text → Text → Result Text) (bit : ℕ) where
  unfoldable pub miner_of : Text → List Text → Text
  unfolding ok_or_empty
  miner_of hash [] = []
  miner_of hash (txid ∷ txids) = ok_or_empty (coinbase_tag txid hash)

  unfoldable pub block_info : ℕ → Result BlockInfo
  unfolding keep_some as_text miner_of
  block_info height = getblockhash height >>= λ reply. as_text reply >>= λ hash.
      (getblock hash >>= λ b.
      let txids = keep_some (unwrap_or [] b.tx) in
      let version = unwrap_or (pos 0) b.version in
      ok (record {
        height = height;
        hash = hash;
        time = unwrap_or (pos 0) b.time;
        version = version;
        signals = signals bit version;
        tx_count = length txids;
        size = unwrap_or (pos 0) b.size;
        weight = unwrap_or (pos 0) b.weight;
        miner = miner_of hash txids;
      }))

  -- The loop of `recent_blocks` from `h` down, while the heights are not negative.
  unfoldable pub recent_loop : ℕ → ℕ → Result (List BlockInfo)
  recent_loop zero h = ok []
  recent_loop (suc count) zero = block_info zero >>= λ b. ok (b ∷ [])
  recent_loop (suc count) (suc h) =
      block_info (suc h) >>= λ b. recent_loop count h >>= λ rest. ok (b ∷ rest)

  unfoldable pub recent_blocks : Result ℕ → ℕ → Result (List BlockInfo)
  unfolding recent_loop
  recent_blocks block_count count = block_count >>= λ tip. recent_loop count tip

  unfoldable pub blocks_at_heights : List ℕ → Result (List BlockInfo)
  blocks_at_heights [] = ok []
  blocks_at_heights (h ∷ heights) =
      block_info h >>= λ b. blocks_at_heights heights >>= λ rest. ok (b ∷ rest)

-- The reply to `getblockstats`.
pub record StatsReply : Type 0 where
  pub totalfee : Option ℤ
  pub subsidy : Option ℤ
  pub avgfeerate : Option ℤ
  pub medianfeerate : Option ℤ
  pub minfeerate : Option ℤ
  pub maxfeerate : Option ℤ
  pub feerate_percentiles : Option (List (Option ℤ))
  pub total_out : Option ℤ
  pub avgtxsize : Option ℤ
  pub ins : Option ℤ
  pub outs : Option ℤ

unfoldable pub block_stats : (ℕ → Result StatsReply) → ℕ → Result BlockStats
unfolding keep_some
block_stats getblockstats height = getblockstats height >>= λ v. ok (record {
  total_fee = unwrap_or (pos 0) v.totalfee;
  subsidy = unwrap_or (pos 0) v.subsidy;
  avg_feerate = unwrap_or (pos 0) v.avgfeerate;
  median_feerate = unwrap_or (pos 0) v.medianfeerate;
  min_feerate = unwrap_or (pos 0) v.minfeerate;
  max_feerate = unwrap_or (pos 0) v.maxfeerate;
  feerate_percentiles = keep_some (unwrap_or [] v.feerate_percentiles);
  total_out = unwrap_or (pos 0) v.total_out;
  avg_tx_size = unwrap_or (pos 0) v.avgtxsize;
  ins = unwrap_or (pos 0) v.ins;
  outs = unwrap_or (pos 0) v.outs;
})
