-- ===== src/Cycle/Assemble/Capped.antt =====
-- What a report keeps when it is capped (src/main.rs).
use bip110_crawler.Common.{
  ℕ, ◌≤◌, ◌≡◌, ◌≢◌, refl, ap, ◌∙◌, inl, inr, Bool, true, false, not, List, [], ◌∷◌, ◌++◌, length,
  take, All, filter, insert_with, sort_with, Bool-cases, ne→==, lt→leb, le→leb, ◌<◌, arith,
}
use bip110_crawler.Node.{NodeInfo, Edge}
use bip110_crawler.Db.Nodes.{flag}
use bip110_crawler.Db.Report.Shown.{IsShown}
use bip110_crawler.Cycle.Assemble.{is_inside, online_first, cap_report}

abbrev pub is_online : NodeInfo → Bool
is_online n = n.online

abbrev pub is_offline : NodeInfo → Bool
is_offline n = not n.online

module _ (n : NodeInfo) where
  insert-online : (ys : List NodeInfo) → n.online ≡ true → insert_with online_first n ys ≡ n ∷ ys
  unfolding insert_with online_first flag
  insert-online [] h = refl
  insert-online (y ∷ ys) h = ground (arith, h)

  insert-offline :
      (xs ys : List NodeInfo)
      → All (λ (x : NodeInfo). x.online ≡ true) xs
      → All (λ (y : NodeInfo). y.online ≡ false) ys
      → n.online ≡ false
      → insert_with online_first n (xs ++ ys) ≡ xs ++ n ∷ ys
  unfolding insert_with online_first flag
  insert-offline [] [] a b h = refl
  insert-offline [] (y ∷ ys) a b h = ground (arith, h, b.0)
  insert-offline (x ∷ xs) ys a b h = ground (arith, h, a.0, insert-offline xs ys a.1 b h)

pub All-filter :
    (p : NodeInfo → Bool) (P : NodeInfo → Type 0)
    → ((n : NodeInfo) → p n ≡ true → P n)
    → (xs : List NodeInfo) → All P (filter p xs)
unfolding filter
All-filter p P h [] = tt
All-filter p P h (x ∷ xs) = elim (Bool-cases (p x)) [
  | inl y ↦ rw y (h x y, All-filter p P h xs)
  | inr n ↦ rw n (All-filter p P h xs)
]

offline_false : (n : NodeInfo) → is_offline n ≡ true → n.online ≡ false
offline_false n h = ground (arith, h)

insert_one :
    (x : NodeInfo) (xs : List NodeInfo)
    → insert_with online_first x (filter is_online xs ++ filter is_offline xs)
      ≡ filter is_online (x ∷ xs) ++ filter is_offline (x ∷ xs)
unfolding filter
insert_one x xs = elim (Bool-cases x.online) [
  | inl y ↦ insert-online x (filter is_online xs ++ filter is_offline xs) y ∙ rw y refl
  | inr n ↦
      insert-offline x (filter is_online xs) (filter is_offline xs)
        (All-filter is_online (λ (m : NodeInfo). m.online ≡ true) (λ m h. h) xs)
        (All-filter is_offline (λ (m : NodeInfo). m.online ≡ false) offline_false xs) n
      ∙ rw n refl
]

-- The stable sort by the flag is a partition.
pub sort_with-online_first :
    (xs : List NodeInfo) → sort_with online_first xs ≡ filter is_online xs ++ filter is_offline xs
unfolding sort_with
sort_with-online_first [] = unfold filter in refl
sort_with-online_first (x ∷ xs) =
    ap (insert_with online_first x) (sort_with-online_first xs) ∙ insert_one x xs

pub inside-IsShown :
    (nodes : List NodeInfo) (edges : List Edge)
    → All (IsShown nodes) (filter (is_inside nodes) edges)
unfolding filter is_inside
inside-IsShown nodes [] = tt
inside-IsShown nodes (e ∷ edges) = elim (Bool-cases (is_inside nodes e)) [
  | inl y ↦ rw y (ground (arith, y), inside-IsShown nodes edges)
  | inr n ↦ rw n (inside-IsShown nodes edges)
]

-- A report over the bound is cut to the first `max` nodes of those that are online, in their order, with
-- the others behind them; the edges that are left are those of its edges that have both ends among
-- the kept nodes. A report within the bound, and one with bound 0, stays as it is.
pub cap_report-Capped :
    (max : ℕ) (nodes : List NodeInfo) (edges : List Edge)
    → let kept = take max (filter is_online nodes ++ filter is_offline nodes) in
      (max ≢ 0
        → max < length nodes
        → (cap_report max (nodes, edges) ≡ (kept, filter (is_inside kept) edges))
          × All (IsShown kept) (filter (is_inside kept) edges))
      × (cap_report 0 (nodes, edges) ≡ (nodes, edges))
      × (length nodes ≤ max → cap_report max (nodes, edges) ≡ (nodes, edges))
unfolding cap_report
cap_report-Capped max nodes edges = (
  λ h over.
      let kept = take max (filter is_online nodes ++ filter is_offline nodes) in
      (
        rw (ne→== max 0 h, lt→leb (length nodes) max over, sort_with-online_first nodes) refl,
        inside-IsShown kept edges,
      ),
  refl,
  λ fits. rw (le→leb (length nodes) max fits) (ground arith),
)
