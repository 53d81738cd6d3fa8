-- ===== src/Cycle/Refresh/Drains.antt =====
-- The backlog of signalling blocks drains (src/main.rs).
use bip110_crawler.Common.{
  ℕ, ◌≤◌, ◌<◌, ◌⊎◌, ◌≡◌, refl, sym, ◌∙◌, subst, inl, inr, Bool, true, false, not, List, [], ◌∷◌,
  map, Option, if◌then◌else◌, ◌==◌, ==_iff, ==_refl, length, count, filter, All, sort_descending,
  count-sort_by, geb, Text, ok, err, Bool-cases, arith, Result-cases,
}
use bip110_crawler.Crawler.Tasks.{is_empty}
use bip110_crawler.Rpc.Blocks.{BlockInfo, BlockStats}
use bip110_crawler.Rpc.Payload.{BlockPayload}
use bip110_crawler.Db.Blocks.{
  BlockRow, upsert_block, write_blocks, write_block_analysis, has_height, unstored_heights,
  blocks_needing_analysis,
}
use bip110_crawler.Db.Blocks.Pages.{take-all}
use bip110_crawler.Cycle.Refresh.{
  Client, store_signalling_per_refresh, analyze_per_refresh, store_signalling, analyse_pending,
  refresh_blocks, ok_to_option,
}

-- How often a height stands in a list.
abbrev times : ℕ → List ℕ → ℕ
times h hs = count (λ k. k == h) hs

abbrev pub block_height : BlockInfo → ℕ
block_height b = b.height

has_height-upsert_block :
    (h : ℕ) (b : BlockInfo) (rows : List BlockRow)
    → has_height h (upsert_block b rows) ≡ (if b.height == h then true else has_height h rows)
unfolding has_height upsert_block
has_height-upsert_block h b [] = refl
has_height-upsert_block h b (r ∷ rows) = ground (arith, has_height-upsert_block h b rows)

has_height-write_blocks :
    (h : ℕ) (blocks : List BlockInfo) (rows : List BlockRow)
    → has_height h rows ≡ true
    → has_height h (write_blocks blocks rows) ≡ true
unfolding write_blocks
has_height-write_blocks h [] rows e = e
has_height-write_blocks h (b ∷ blocks) rows e =
    has_height-write_blocks h blocks (upsert_block b rows)
      (has_height-upsert_block h b rows ∙ ground (arith, e))

has_height-written :
    (h : ℕ) (blocks : List BlockInfo) (rows : List BlockRow)
    → 0 < times h (map block_height blocks)
    → has_height h (write_blocks blocks rows) ≡ true
unfolding write_blocks count
has_height-written h [] rows e = absurd (omega arith)
has_height-written h (b ∷ blocks) rows e = elim (Bool-cases (b.height == h)) [
  | inl here ↦
      has_height-write_blocks h blocks (upsert_block b rows)
        (has_height-upsert_block h b rows ∙ rw here refl)
  | inr there ↦ has_height-written h blocks (upsert_block b rows) (ground (arith, e, there))
]

has_height-analysis :
    (h height : ℕ) (p : BlockPayload) (s : Option BlockStats) (rows : List BlockRow)
    → has_height h (write_block_analysis height p s rows) ≡ has_height h rows
unfolding has_height write_block_analysis
has_height-analysis h height p s [] = refl
has_height-analysis h height p s (r ∷ rows) = ground (arith, has_height-analysis h height p s rows)

elsewhere : (p : ℕ → Bool) (k h : ℕ) → p k ≡ false → p h ≡ true → (k == h) ≡ false
elsewhere p k h n e = elim (Bool-cases (k == h)) [
  | inl same ↦ absurd (cc (n, e, (==_iff k h).0 same))
  | inr other ↦ other
]

module _ (client : Client) where
  has_height-analyse_pending :
      (h : ℕ) (pending : List (ℕ × Text)) (rows : List BlockRow)
      → has_height h (analyse_pending client pending rows) ≡ has_height h rows
  unfolding analyse_pending
  has_height-analyse_pending h [] rows = refl
  has_height-analyse_pending h ((height, hash) ∷ pending) rows =
      elim (Result-cases (client.analyze_block hash)) [
        | inl (e, q) ↦ rw (q, analyse_pending) refl
        | inr (p, q) ↦
            let stats = ok_to_option (client.block_stats height) in
            rw (q, analyse_pending)
              (has_height-analyse_pending h pending (write_block_analysis height p stats rows)
                ∙ has_height-analysis h height p stats rows)
      ]

times-filter :
    (p : ℕ → Bool) (h : ℕ) (hs : List ℕ) → p h ≡ true → times h (filter p hs) ≡ times h hs
unfolding count filter
times-filter p h [] e = refl
times-filter p h (k ∷ hs) e = elim (Bool-cases (p k)) [
  | inl y ↦ rw y (omega (arith, times-filter p h hs e))
  | inr n ↦
      let away : (k == h) ≡ false = elsewhere p k h n e in
      rw (n, away) (omega (arith, times-filter p h hs e))
]

filter-none : (p : ℕ → Bool) (hs : List ℕ) → All (λ h. p h ≡ false) hs → filter p hs ≡ []
unfolding filter
filter-none p [] a = refl
filter-none p (h ∷ hs) a = rw a.0 (filter-none p hs a.1)

times_more :
    (k : ℕ) (hs all : List ℕ) → All (λ h. 0 < times h all) hs → All (λ h. 0 < times h (k ∷ all)) hs
unfolding count
times_more k [] all a = tt
times_more k (h ∷ hs) all a = (omega (arith, a.0), times_more k hs all a.1)

times_self : (hs : List ℕ) → All (λ h. 0 < times h hs) hs
unfolding count
times_self [] = tt
times_self (h ∷ hs) = (rw (==_refl h) (omega arith), times_more h hs hs (times_self hs))

module _ (client : Client) (h : ℕ) where
  stored_or_asked :
      (m : List ℕ) (blocks : List BlockInfo) (rows : List BlockRow)
      → client.blocks_at_heights m ≡ ok blocks
      → map block_height blocks ≡ m
      → (has_height h rows ≡ true) ⊎ (0 < times h m)
      → has_height h (
          if is_empty m
          then rows
          else elim (client.blocks_at_heights m) [ ok bs ↦ write_blocks bs rows | err e ↦ rows ])
        ≡ true
  unfolding count is_empty
  stored_or_asked [] blocks rows answer asked (inl e) = e
  stored_or_asked [] blocks rows answer asked (inr e) = absurd (omega arith)
  stored_or_asked (x ∷ m) blocks rows answer asked (inl e) =
      rw answer (has_height-write_blocks h blocks rows e)
  stored_or_asked (x ∷ m) blocks rows answer asked (inr e) =
      rw answer (has_height-written h blocks rows (subst (λ hs. 0 < times h hs) (sym asked) e))

  times-unstored :
      (heights : List ℕ) (rows : List BlockRow)
      → has_height h rows ≡ false
      → times h (sort_descending (unstored_heights heights rows)) ≡ times h heights
  unfolding unstored_heights
  times-unstored heights rows n =
      count-sort_by (λ k. k == h) geb (unstored_heights heights rows)
      ∙ times-filter (λ k. not (has_height k rows)) h heights (rw n refl)

  store_signalling-stores :
      (heights : List ℕ) (blocks : List BlockInfo) (rows : List BlockRow)
      → (let missing = sort_descending (unstored_heights heights rows) in
          length missing ≤ store_signalling_per_refresh
          → client.blocks_at_heights missing ≡ ok blocks
          → map block_height blocks ≡ missing
          → 0 < times h heights
          → has_height h (store_signalling client heights rows) ≡ true)
  unfolding store_signalling
  store_signalling-stores heights blocks rows few answer asked wanted =
      let missing = sort_descending (unstored_heights heights rows) in
      let known : (has_height h rows ≡ true) ⊎ (0 < times h missing) =
        elim (Bool-cases (has_height h rows)) [
          | inl e ↦ inl e
          | inr n ↦ inr (omega (arith, times-unstored heights rows n, wanted))
        ] in
      rw (take-all store_signalling_per_refresh missing few)
        (stored_or_asked missing blocks rows answer asked known)

  refresh_blocks-stores :
      (heights : List ℕ) (recent blocks : List BlockInfo) (rows : List BlockRow)
      → client.recent_blocks ≡ ok recent
      → (let missing = sort_descending (unstored_heights heights (write_blocks recent rows)) in
          length missing ≤ store_signalling_per_refresh
          → client.blocks_at_heights missing ≡ ok blocks
          → map block_height blocks ≡ missing
          → 0 < times h heights
          → not (has_height h (refresh_blocks client heights rows)) ≡ false)
  unfolding refresh_blocks
  refresh_blocks-stores heights recent blocks rows tip few answer asked wanted =
      let stored = store_signalling client heights (write_blocks recent rows) in
      let pending = blocks_needing_analysis analyze_per_refresh stored in
      let there : has_height h stored ≡ true =
        store_signalling-stores heights blocks (write_blocks recent rows) few answer asked wanted in
      let kept : has_height h (analyse_pending client pending stored) ≡ true =
        has_height-analyse_pending client h pending stored ∙ there in
      rw (tip, kept) refl

all_map : (P Q : ℕ → Type 0) → ((h : ℕ) → P h → Q h) → (hs : List ℕ) → All P hs → All Q hs
all_map P Q f [] a = tt
all_map P Q f (h ∷ hs) a = (f h a.0, all_map P Q f hs a.1)

-- A refresh empties a backlog that fits into it: if the node answers with its recent blocks and
-- with one block for each signalling height that is then still missing, in the order they were asked,
-- and no more than 64 are missing, then after the refresh every height of the signalling scan is stored.
pub refresh_blocks_drains :
    (client : Client) (heights : List ℕ) (recent blocks : List BlockInfo) (rows : List BlockRow)
    → client.recent_blocks ≡ ok recent
    → (let missing = sort_descending (unstored_heights heights (write_blocks recent rows)) in
        length missing ≤ store_signalling_per_refresh
        → client.blocks_at_heights missing ≡ ok blocks
        → map block_height blocks ≡ missing
        → unstored_heights heights (refresh_blocks client heights rows) ≡ [])
unfolding unstored_heights
refresh_blocks_drains client heights recent blocks rows tip few answer asked =
    let after = refresh_blocks client heights rows in
    filter-none (λ h. not (has_height h after)) heights
      (all_map (λ h. 0 < times h heights) (λ h. not (has_height h after) ≡ false)
        (λ h wanted.
          refresh_blocks-stores client h heights recent blocks rows tip few answer asked wanted)
        heights (times_self heights))
