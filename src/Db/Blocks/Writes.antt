-- ===== src/Db/Blocks/Writes.antt =====
-- What a write of blocks keeps of the table: its order, its rows and what was analysed (src/db.rs).
use bip110_crawler.Common.{
  ◌⊎◌, inl, inr, ℕ, ◌<◌, ◌≤◌, ◌≡◌, refl, ◌∙◌, inl, inr, true, false, List, [], ◌∷◌, Option, none,
  some, if◌then◌else◌, ltb, ◌==◌, ==_iff, Bool, All, Bool-cases, arith,
}
use bip110_crawler.Rpc.Blocks.{BlockInfo}
use bip110_crawler.Db.Blocks.{BlockRow, upsert_block, write_blocks}
use bip110_crawler.Db.Blocks.Pages.{Descending}

unfoldable pub find_block : ℕ → List BlockRow → Option BlockRow
find_block h [] = none
find_block h (r ∷ rows) = if r.info.height == h then some r else find_block h rows

upsert_block-below :
    (h : ℕ) (b : BlockInfo) (rows : List BlockRow)
    → All (λ (q : BlockRow). q.info.height < h) rows
    → b.height < h
    → All (λ (q : BlockRow). q.info.height < h) (upsert_block b rows)
unfolding upsert_block
upsert_block-below h b [] a l = (l, tt)
upsert_block-below h b (r ∷ rows) a l = elim (Bool-cases (b.height == r.info.height)) [
  | inl same ↦ rw same (l, a.1)
  | inr other ↦ elim (Bool-cases (ltb r.info.height b.height)) [
    | inl above ↦ rw (other, above) (l, a)
    | inr under ↦ rw (other, under) (a.0, upsert_block-below h b rows a.1 l)
  ]
]

all_below :
    (h k : ℕ) (rows : List BlockRow)
    → h ≤ k
    → All (λ (q : BlockRow). q.info.height < h) rows
    → All (λ (q : BlockRow). q.info.height < k) rows
all_below h k [] l a = tt
all_below h k (r ∷ rows) l a = (omega (arith, a.0), all_below h k rows l a.1)

upsert_block-Descending :
    (b : BlockInfo) (rows : List BlockRow) → Descending rows → Descending (upsert_block b rows)
unfolding upsert_block
upsert_block-Descending b [] d = (tt, tt)
upsert_block-Descending b (r ∷ rows) d = elim (Bool-cases (b.height == r.info.height)) [
  | inl same ↦ rw same (all_below r.info.height b.height rows (ground arith) d.0, d.1)
  | inr other ↦ elim (Bool-cases (ltb r.info.height b.height)) [
    | inl above ↦
        rw (other, above)
          ((ground arith, all_below r.info.height b.height rows (ground arith) d.0), d)
    | inr under ↦
        rw (other, under)
          (
            upsert_block-below r.info.height b rows d.0 (ground arith),
            upsert_block-Descending b rows d.1,
          )
  ]
]

pub write_blocks-Descending :
    (blocks : List BlockInfo) (rows : List BlockRow)
    → Descending rows
    → Descending (write_blocks blocks rows)
unfolding write_blocks
write_blocks-Descending [] rows d = d
write_blocks-Descending (b ∷ blocks) rows d =
    write_blocks-Descending blocks (upsert_block b rows) (upsert_block-Descending b rows d)

-- The row of a height, if there is one, with the cheap columns of the block.
abbrev pub refreshed : BlockInfo → Option BlockRow → BlockRow
refreshed b none = record { info = b; payload = none; stats = none }
refreshed b (some r) = record r { info = b }

find_block-absent :
    (h : ℕ) (rows : List BlockRow)
    → All (λ (q : BlockRow). q.info.height < h) rows
    → find_block h rows ≡ none
unfolding find_block
find_block-absent h [] a = refl
find_block-absent h (r ∷ rows) a = ground (arith, find_block-absent h rows a.1, a.0)

find_block-upsert_block :
    (h : ℕ) (b : BlockInfo) (rows : List BlockRow)
    → Descending rows
    → find_block h (upsert_block b rows)
      ≡ (if b.height == h then some (refreshed b (find_block b.height rows)) else find_block h rows)
unfolding find_block upsert_block
find_block-upsert_block h b [] d = refl
find_block-upsert_block h b (r ∷ rows) d = elim (Bool-cases (b.height == r.info.height)) [
  | inl same ↦ ground (arith, same)
  | inr other ↦ elim (Bool-cases (ltb r.info.height b.height)) [
    | inl above ↦
        let none_here : find_block b.height rows ≡ none =
          find_block-absent b.height rows
            (all_below r.info.height b.height rows (ground arith) d.0) in
        ground (arith, other, above, none_here)
    | inr under ↦ ground (arith, other, under, find_block-upsert_block h b rows d.1)
  ]
]

-- A block of the list has the height.
unfoldable pub has_block : ℕ → List BlockInfo → Bool
has_block h [] = false
has_block h (b ∷ blocks) = if b.height == h then true else has_block h blocks

-- Writing blocks into an ordered table keeps it ordered, keeps every stored row with the analysis that
-- it has, and changes the other columns only of a height that is written.
pub write_blocks-keeps :
    (h : ℕ) (blocks : List BlockInfo) (rows : List BlockRow) (old : BlockRow)
    → Descending rows
    → find_block h rows ≡ some old
    → Descending (write_blocks blocks rows)
      × ((new : BlockRow) × (find_block h (write_blocks blocks rows) ≡ some new)
          × (new.payload ≡ old.payload)
          × (new.stats ≡ old.stats)
          × ((has_block h blocks ≡ true) ⊎ (new ≡ old)))
unfolding write_blocks has_block
write_blocks-keeps h [] rows old d q = (d, (old, q, refl, refl, inr refl))
write_blocks-keeps h (b ∷ blocks) rows old d q = elim (Bool-cases (b.height == h)) [
  | inl here ↦
      let at : find_block h (upsert_block b rows) ≡ some (record old { info = b }) =
        (let same : find_block b.height rows ≡ some old = rw ((==_iff b.height h).0 here) q in
          find_block-upsert_block h b rows d ∙ rw (here, same) refl) in
      let (d', (new, qn, p, s, k)) =
        write_blocks-keeps h blocks (upsert_block b rows) (record old { info = b })
          (upsert_block-Descending b rows d) at in
      (d', (new, qn, p, s, inl (rw here refl)))
  | inr there ↦
      let at : find_block h (upsert_block b rows) ≡ some old =
        find_block-upsert_block h b rows d ∙ rw there q in
      let (d', (new, qn, p, s, k)) =
        write_blocks-keeps h blocks (upsert_block b rows) old (upsert_block-Descending b rows d)
          at in
      (d', (new, qn, p, s, rw there k))
]
