-- ===== src/Db/Table/Pages.antt =====
-- A client that asks for page after page of the node table sees every matching row once (src/db.rs).
use bip110_crawler.Common.{
  ℕ, zero, suc, ◌+◌, ◌≤◌, ◌<◌, ◌≡◌, refl, ap, sym, subst, ◌∙◌, inl, inr, Bool, true, List, [], ◌∷◌,
  ◌++◌, length, take, drop, count, count-sort_with, count-reverse, Text, sort_with, Bool-cases,
  arith,
}
use bip110_crawler.Db.Nodes.{NodeRecord}
use bip110_crawler.Db.Table.{NodeRow, NodeQuery, row_leb, sorted_rows, matching_rows, read_nodes}
use bip110_crawler.Db.Table.Order.{Asked, InOrder, column, sorted_rows-InOrder}

take-drop {ℓ} : {A : Type ℓ} (n : ℕ) (xs : List A) → take n xs ++ drop n xs ≡ xs
take-drop zero xs = refl
take-drop (suc n) [] = refl
take-drop (suc n) (x ∷ xs) = ap (λ r. x ∷ r) (take-drop n xs)

drop-nil {ℓ} : {A : Type ℓ} (n : ℕ) → drop {A = A} n [] ≡ []
drop-nil zero = refl
drop-nil (suc n) = refl

drop-drop {ℓ} : {A : Type ℓ} (m n : ℕ) (xs : List A) → drop n (drop m xs) ≡ drop (m + n) xs
drop-drop zero n xs = let none_first : n ≡ 0 + n = omega arith in ap (λ k. drop k xs) none_first
drop-drop (suc m) n [] = drop-nil n ∙ sym (drop-nil (suc m + n))
drop-drop (suc m) n (x ∷ xs) =
    let one_more : suc (m + n) ≡ suc m + n = omega arith in
    drop-drop m n xs ∙ ap (λ k. drop k (x ∷ xs)) one_more

drop-all {ℓ} : {A : Type ℓ} (n : ℕ) (xs : List A) → length xs ≤ n → drop n xs ≡ []
drop-all zero [] h = refl
drop-all zero (x ∷ xs) h = absurd (omega arith)
drop-all (suc n) [] h = refl
drop-all (suc n) (x ∷ xs) h = drop-all n xs (omega arith)

count-sorted_rows :
    (p : NodeRow → Bool) (query : NodeQuery) (rows : List NodeRow)
    → count p (sorted_rows query rows) ≡ count p rows
unfolding sorted_rows
count-sorted_rows p query rows = elim (Bool-cases query.dir_desc) [
  | inl down ↦ rw down (
      count-reverse p (sort_with (row_leb query.sort) rows)
      ∙ count-sort_with p (row_leb query.sort) rows)
  | inr up ↦ rw up (count-sort_with p (row_leb query.sort) rows)
]

count-true {ℓ} : {A : Type ℓ} (xs : List A) → count (λ x. true) xs ≡ length xs
unfolding count
count-true [] = refl
count-true (x ∷ xs) = omega (arith, count-true xs)

module _ {F : Type 0} (lower_other : ℕ → Text) (now max_age_secs : ℕ) where
  -- The pages from an offset on, each from where the one before ended.
  pub table_pages : ℕ → ℕ → NodeQuery → List (NodeRecord F) → List NodeRow
  table_pages zero offset query rows = []
  table_pages (suc fuel) offset query rows =
      (read_nodes lower_other now max_age_secs (record query { offset = offset }) rows).0
      ++ table_pages fuel (offset + query.limit) query rows

  table_pages-drop :
      (fuel offset : ℕ) (query : NodeQuery) (rows : List (NodeRecord F))
      → let all = sorted_rows query (matching_rows lower_other now max_age_secs query rows) in
        0 < query.limit
        → length all ≤ offset + fuel
        → table_pages fuel offset query rows ≡ drop offset all
  unfolding table_pages read_nodes matching_rows sorted_rows
  table_pages-drop zero offset query rows l h = sym (drop-all offset _ (omega arith))
  table_pages-drop (suc fuel) offset query rows l h =
      let all = sorted_rows query (matching_rows lower_other now max_age_secs query rows) in
      ap (λ r. take query.limit (drop offset all) ++ r)
        (table_pages-drop fuel (offset + query.limit) query rows l (omega arith)
          ∙ sym (drop-drop offset query.limit all))
      ∙ take-drop query.limit (drop offset all)

  -- Page after page, a client with a positive limit gets all the rows that match, each as often as it
  -- matches, and as many as the total on every page says. Each row stands before the next in the order
  -- asked for: by the named column, from small to large or from large to small, with NULL before every
  -- value; texts go by their bytes, and a name that is no column's means the depth.
  pub table_pages_complete :
      (query : NodeQuery) (rows : List (NodeRecord F))
      → let found = matching_rows lower_other now max_age_secs query rows in
        let total = (read_nodes lower_other now max_age_secs query rows).1 in
        let pages = table_pages total 0 query rows in
        0 < query.limit
        → InOrder (Asked query.dir_desc (column query.sort)) pages
          × (pages ≡ sorted_rows query found)
          × ((p : NodeRow → Bool) → count p pages ≡ count p found)
          × (length pages ≡ total)
  unfolding read_nodes
  table_pages_complete query rows l =
      let found = matching_rows lower_other now max_age_secs query rows in
      let size : length (sorted_rows query found) ≡ length found =
        sym (count-true (sorted_rows query found))
        ∙ count-sorted_rows (λ x. true) query found
        ∙ count-true found in
      let all = table_pages-drop (length found) 0 query rows l (omega (arith, size)) in
      let order = InOrder (Asked query.dir_desc (column query.sort)) in
      (
        subst order (sym all) (sorted_rows-InOrder query found),
        all,
        λ p. ap (count p) all ∙ count-sorted_rows p query found,
        ap length all ∙ size,
      )
