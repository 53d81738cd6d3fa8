-- ===== src/Db/Blocks/Pages.antt =====
-- A client that reads page after page sees the whole table, once and in order (src/db.rs).
use bip110_crawler.Common.{
  ◌⊎◌, ℕ, zero, suc, ◌+◌, ◌≤◌, ◌<◌, ◌≡◌, max, refl, sym, ap, ◌∙◌, subst, inl, inr, true, false,
  List, [], ◌∷◌, ◌++◌, append_assoc, Option, none, some, ℤ, pos, ltb_ℤ, if◌then◌else◌, ltb, length,
  take, All, filter, arith, lt→ltb, le→ltb, length-append, take-append, length-take,
}
use bip110_crawler.Db.Blocks.{BlockRow, below, read_blocks_page}

abbrev pub Descending : List BlockRow → Type 0
Descending [] = Unit
Descending (r ∷ rows) = All (λ (q : BlockRow). q.info.height < r.info.height) rows × Descending rows

last_height : List BlockRow → Option ℤ
last_height [] = none
last_height (r ∷ []) = some (pos r.info.height)
last_height (r ∷ q ∷ rows) = last_height (q ∷ rows)

-- The pages from `before` on, as long as the last one said that there is more.
pub read_pages : ℕ → Option ℤ → ℕ → List BlockRow → List BlockRow
unfolding last_height
read_pages zero before limit rows = []
read_pages (suc fuel) before limit rows =
    let (page, has_more) = read_blocks_page before limit rows in
    let rest = read_pages fuel (last_height page) limit rows in
    if has_more then page ++ rest else page

last_height-append :
    (init : List BlockRow) (r : BlockRow) → last_height (init ++ r ∷ []) ≡ some (pos r.info.height)
unfolding last_height
last_height-append [] r = refl
last_height-append (q ∷ []) r = refl
last_height-append (q ∷ p ∷ init) r = last_height-append (p ∷ init) r

filter-all :
    (h : ℕ) (rows : List BlockRow)
    → All (λ (q : BlockRow). q.info.height < h) rows
    → filter (λ (r : BlockRow). ltb_ℤ (pos r.info.height) (pos h)) rows ≡ rows
unfolding filter
filter-all h [] a = refl
filter-all h (r ∷ rows) a = ground (arith, filter-all h rows a.1, a.0)

All-middle :
    (P : BlockRow → Type 0) (xs : List BlockRow) (y : BlockRow) (ys : List BlockRow)
    → All P (xs ++ y ∷ ys)
    → P y
All-middle P [] y ys h = h.0
All-middle P (x ∷ xs) y ys h = All-middle P xs y ys h.1

-- Below the height of a row stand the rows behind it.
below-behind :
    (init : List BlockRow) (r : BlockRow) (rest : List BlockRow)
    → Descending (init ++ r ∷ rest)
    → below (some (pos r.info.height)) (init ++ r ∷ rest) ≡ rest
unfolding below filter
below-behind [] r rest d = ground (arith, filter-all r.info.height rest d.0)
below-behind (q ∷ init) r rest d =
    let lower : r.info.height < q.info.height =
      All-middle (λ (x : BlockRow). x.info.height < q.info.height) init r rest d.0 in
    ground (arith, below-behind init r rest d.1)

pub take-all {ℓ} : {A : Type ℓ} (n : ℕ) (xs : List A) → length xs ≤ n → take n xs ≡ xs
take-all zero [] h = refl
take-all zero (x ∷ xs) h = absurd (omega arith)
take-all (suc n) [] h = refl
take-all (suc n) (x ∷ xs) h = ap (λ r. x ∷ r) (take-all n xs (omega arith))

take-take-suc {ℓ} : {A : Type ℓ} (n : ℕ) (xs : List A) → take n (take (suc n) xs) ≡ take n xs
take-take-suc zero xs = refl
take-take-suc (suc n) [] = refl
take-take-suc (suc n) (x ∷ xs) = ap (λ r. x ∷ r) (take-take-suc n xs)

-- Rows that do not fit on a page of `suc n` rows: those on it, the last one, and those behind.
record Cut (n : ℕ) (xs : List BlockRow) : Type 0 where
  pre : List BlockRow
  at : BlockRow
  rest : List BlockRow
  splits : xs ≡ pre ++ at ∷ rest
  filled : length pre ≡ n
  left : 0 < length rest

cut : (n : ℕ) (xs : List BlockRow) → (length xs ≤ suc n) ⊎ Cut n xs
cut n [] = inl (omega arith)
cut zero (x ∷ []) = inl (omega arith)
cut zero (x ∷ y ∷ xs) =
    inr
      (record { pre = []; at = x; rest = y ∷ xs; splits = refl; filled = refl; left = omega arith })
cut (suc n) (x ∷ xs) = elim (cut n xs) [
  | inl short ↦ inl (omega arith)
  | inr c ↦ inr (record {
    pre = x ∷ c.pre;
    at = c.at;
    rest = c.rest;
    splits = ap (λ r. x ∷ r) c.splits;
    filled = ap suc c.filled;
    left = c.left;
  })
]

regroup :
    (pre : List BlockRow) (at : BlockRow) (rest : List BlockRow)
    → (pre ++ at ∷ []) ++ rest ≡ pre ++ at ∷ rest
regroup pre at rest = append_assoc pre (at ∷ []) rest

module _ (n : ℕ) (xs : List BlockRow) where
  short_page :
      length xs ≤ suc n
      → (take (suc n) (take (suc n + 1) xs) ≡ xs)
        × (ltb (suc n) (length (take (suc n + 1) xs)) ≡ false)
  short_page h =
      let whole : take (suc n + 1) xs ≡ xs = take-all (suc n + 1) xs (omega arith) in
      (rw whole (take-all (suc n) xs h), rw whole (le→ltb _ _ h))

  full_page :
      (c : Cut n xs)
      → (take (suc n) (take (suc n + 1) xs) ≡ c.pre ++ c.at ∷ [])
        × (ltb (suc n) (length (take (suc n + 1) xs)) ≡ true)
  full_page c =
      let parts : length xs ≡ n + 1 + length c.rest =
        ap length c.splits ∙ omega (arith, length-append c.pre (c.at ∷ c.rest), c.filled) in
      let size : length (c.pre ++ c.at ∷ []) ≡ suc n =
        omega (arith, length-append c.pre (c.at ∷ []), c.filled) in
      (
        (let again : suc n + 1 ≡ suc (suc n) = omega arith in
              ap (λ k. take (suc n) (take k xs)) again)
            ∙ take-take-suc (suc n) xs
            ∙ ap (take (suc n)) (c.splits ∙ sym (regroup c.pre c.at c.rest))
            ∙ subst (λ k. take k ((c.pre ++ c.at ∷ []) ++ c.rest) ≡ c.pre ++ c.at ∷ []) size
                (take-append (c.pre ++ c.at ∷ []) c.rest),
        lt→ltb _ _ (omega (arith, length-take (suc n + 1) xs, parts, c.left)),
      )

read_pages-suffix :
    (fuel : ℕ) (before : Option ℤ) (n : ℕ) (init suf rows : List BlockRow)
    → rows ≡ init ++ suf
    → below before rows ≡ suf
    → Descending rows
    → length suf < fuel
    → read_pages fuel before (suc n) rows ≡ suf
unfolding read_pages read_blocks_page
read_pages-suffix zero before n init suf rows e b d h = absurd (omega arith)
read_pages-suffix (suc fuel) before n init suf rows e b d h = elim (cut n suf) [
  | inl short ↦
      let (p, m) = short_page n suf short in
      let one : max (suc n) 1 ≡ suc n = omega arith in rw (one, b, p, m) refl
  | inr c ↦
      let (p, m) = full_page n suf c in
      let one : max (suc n) 1 ≡ suc n = omega arith in
      let size : length suf ≡ length c.pre + suc (length c.rest) =
        ap length c.splits ∙ length-append c.pre (c.at ∷ c.rest) in
      let all : rows ≡ (init ++ c.pre) ++ c.at ∷ c.rest =
        e ∙ ap (λ r. init ++ r) c.splits ∙ sym (append_assoc init c.pre (c.at ∷ c.rest)) in
      let behind : below (some (pos c.at.info.height)) rows ≡ c.rest =
        ap (below (some (pos c.at.info.height))) all
        ∙ below-behind (init ++ c.pre) c.at c.rest (subst Descending all d) in
      let rest =
        read_pages-suffix fuel (some (pos c.at.info.height)) n ((init ++ c.pre) ++ c.at ∷ []) c.rest
          rows (all ∙ sym (regroup (init ++ c.pre) c.at c.rest)) behind d (omega arith) in
      rw (one, b, p, m, last_height-append c.pre c.at, rest)
        (regroup c.pre c.at c.rest ∙ sym c.splits)
]

-- Reading page after page, each from below the last height of the one before, ends after at most one
-- round more than there are blocks and gives every stored block once, from the highest down,
-- whatever the page size.
pub read_pages_complete :
    (limit : ℕ) (rows : List BlockRow)
    → Descending rows
    → 0 < limit
    → read_pages (length rows + 1) none limit rows ≡ rows
unfolding below
read_pages_complete zero rows d h = absurd (omega arith)
read_pages_complete (suc n) rows d h =
    read_pages-suffix (length rows + 1) none n [] rows rows refl refl d (omega arith)
