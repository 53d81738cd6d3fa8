-- ===== src/Db/Blocks.antt =====
-- The table of blocks (src/db.rs: write_blocks, write_block_analysis and the block views). Its primary
-- key is the height, so the rows are kept with the highest first, which is the order that the
-- views ask for. The JSON columns hold the values that were written to them.
pub mod Writes
pub mod Pages
use bip110_crawler.Common.{
  ℕ, suc, ◌+◌, ◌*◌, ◌/◌, max, Bool, true, false, not, ◌&&◌, List, [], ◌∷◌, Option, none, some, ℤ,
  pos, ltb_ℤ, leb_ℤ, ◌+ℤ◌, if◌then◌else◌, ltb, leb, ◌==◌, length, take, get_or, Text, filter, map,
  sort_with,
}
use bip110_crawler.Rpc.Blocks.{BlockInfo, BlockStats}
use bip110_crawler.Rpc.Payload.{BlockPayload}

pub record BlockRow : Type 0 where
  pub info : BlockInfo
  pub payload : Option BlockPayload
  pub stats : Option BlockStats

-- INSERT … ON CONFLICT(height) DO UPDATE: payload and stats are not in the SET list.
unfoldable pub upsert_block : BlockInfo → List BlockRow → List BlockRow
upsert_block b [] = record { info = b; payload = none; stats = none } ∷ []
upsert_block b (r ∷ rows) =
    if b.height == r.info.height
    then record r { info = b } ∷ rows
    else if ltb r.info.height b.height
    then record { info = b; payload = none; stats = none } ∷ r ∷ rows
    else r ∷ upsert_block b rows

unfoldable pub write_blocks : List BlockInfo → List BlockRow → List BlockRow
unfolding upsert_block
write_blocks [] rows = rows
write_blocks (b ∷ blocks) rows = write_blocks blocks (upsert_block b rows)

-- UPDATE blocks SET payload=?2, stats=?3 WHERE height=?1
unfoldable pub write_block_analysis :
    ℕ → BlockPayload → Option BlockStats → List BlockRow → List BlockRow
write_block_analysis height payload stats [] = []
write_block_analysis height payload stats (r ∷ rows) =
    (if r.info.height == height then record r { payload = some payload; stats = stats } else r)
    ∷ write_block_analysis height payload stats rows

unfoldable pub read_blocks : ℕ → List BlockRow → List BlockRow
read_blocks limit rows = take limit rows

-- WHERE height < ?1, when `before` is given.
unfoldable pub below : Option ℤ → List BlockRow → List BlockRow
below none rows = rows
below (some h) rows = filter (λ r. ltb_ℤ (pos r.info.height) h) rows

-- The callers allow a limit of 200 at most, so `limit + 1` fits its machine word.
unfoldable pub read_blocks_page : Option ℤ → ℕ → List BlockRow → List BlockRow × Bool
unfolding below
read_blocks_page before limit rows =
    let limit1 = max limit 1 in
    let got = take (limit1 + 1) (below before rows) in (take limit1 got, ltb limit1 (length got))

abbrev pub period_start : ℕ → ℕ → ℕ
period_start period_len tip = tip / max period_len 1 * max period_len 1

unfoldable pub read_period_signalling_blocks : ℕ → ℕ → List BlockRow → ℕ × ℕ × List BlockRow
read_period_signalling_blocks period_len limit [] = (0, 0, [])
read_period_signalling_blocks period_len limit (t ∷ rows) =
    let start = period_start period_len t.info.height in
    (
      start,
      t.info.height,
      take limit (filter (λ r. r.info.signals && leb start r.info.height) (t ∷ rows)),
    )

pub record PeriodStats : Type 0 where
  pub analysed : ℕ
  pub with_stats : ℕ
  pub insc_count : ℕ
  pub rune_count : ℕ
  pub payload_weight : ℤ
  pub reject_weight : ℤ
  pub total_fee : ℤ
  pub rates : List ℤ

abbrev no_stats : PeriodStats
no_stats = record {
  analysed = 0;
  with_stats = 0;
  insc_count = 0;
  rune_count = 0;
  payload_weight = pos 0;
  reject_weight = pos 0;
  total_fee = pos 0;
  rates = [];
}

unfoldable pub add_stats : Option BlockStats → PeriodStats → PeriodStats
add_stats none acc = acc
add_stats (some s) acc = record acc {
  with_stats = acc.with_stats + 1;
  total_fee = acc.total_fee +ℤ s.total_fee;
  rates = s.median_feerate ∷ acc.rates;
}

-- One row of the loop; a row that was not analysed is not selected.
unfoldable pub add_row : BlockRow → PeriodStats → PeriodStats
unfolding add_stats
add_row r acc = elim r.payload [
  | none ↦ acc
  | some p ↦ add_stats r.stats (record acc {
    analysed = acc.analysed + 1;
    insc_count = acc.insc_count + p.insc_count;
    rune_count = acc.rune_count + p.rune_count;
    payload_weight = acc.payload_weight +ℤ p.payload_weight;
    reject_weight = acc.reject_weight +ℤ p.bip110_reject_weight;
  })
]

unfoldable pub sum_rows : List BlockRow → PeriodStats → PeriodStats
unfolding add_row
sum_rows [] acc = acc
sum_rows (r ∷ rows) acc = sum_rows rows (add_row r acc)

-- The period's start, its sums, and the median of the fee rates.
unfoldable pub read_period_block_stats : ℕ → List BlockRow → Option (ℕ × PeriodStats × ℤ)
unfolding sum_rows
read_period_block_stats period_len [] = none
read_period_block_stats period_len (t ∷ rows) =
    let start = period_start period_len t.info.height in
    let sums = sum_rows (filter (λ r. leb start r.info.height) (t ∷ rows)) no_stats in
    let rates = sort_with leb_ℤ sums.rates in
    some (start, sums, get_or rates (length rates / 2) (pos 0))

abbrev is_pending : BlockRow → Bool
is_pending r = elim r.payload [ none ↦ true | some p ↦ false ]

unfoldable pub blocks_needing_analysis : ℕ → List BlockRow → List (ℕ × Text)
blocks_needing_analysis limit rows =
    map (λ (r : BlockRow). (r.info.height, r.info.hash)) (take limit (filter is_pending rows))

unfoldable pub has_height : ℕ → List BlockRow → Bool
has_height h [] = false
has_height h (r ∷ rows) = if r.info.height == h then true else has_height h rows

unfoldable pub unstored_heights : List ℕ → List BlockRow → List ℕ
unfolding has_height
unstored_heights heights rows = filter (λ h. not (has_height h rows)) heights
