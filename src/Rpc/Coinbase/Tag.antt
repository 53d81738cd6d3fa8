-- ===== src/Rpc/Coinbase/Tag.antt =====
-- A tag is short and printable, whatever the coinbase holds (src/rpc.rs).
pub mod Printing
use bip110_crawler.Common.{
  ℕ, zero, suc, ◌+◌, ◌≤◌, ◌≡◌, ◌⊎◌, inl, inr, refl, subst, Bool, true, not, ◌&&◌, ◌||◌, List, [],
  ◌∷◌, ◌++◌, Option, none, some, ltb, leb, ◌==◌, length, length-append, length-take, take, drop,
  get_elem?, All, All-append, All-take, All-drop, skip_while, Bool-cases, Option-cases, Text, codes,
  Bytes, arith,
}
use mathlib.Core.List.{reverse, reverse-append}
use mathlib.Core.Option.{some-injective}
use bip110_crawler.Crawler.Tasks.{is_empty}
use bip110_crawler.Rpc.Coinbase.{
  hex_pairs, is_printable, runs_of, best_run, split_slash, is_wrapper, clean_tag, segments_of,
  position_from, find_long, other_run, pool_of, miner_of, separator, same_letters, join_tag, tag_of,
  parse_coinbase_tag,
}
use bip110_crawler.Rpc.Coinbase.Tag.Printing.{
  Printable, runs_of-Printable, best_run-Printable, split_slash-Printable, clean_tag-Printable,
  segments_of-Printable, element-Printable,
}

-- A miner's tag that may be missing.
abbrev Shown : Option Text → Type 0
Shown none = Unit
Shown (some m) = Printable m

find_long-Shown : (segments : List Text) → All Printable segments → Shown (find_long segments)
unfolding find_long
find_long-Shown [] a = tt
find_long-Shown (s ∷ segments) a = elim (Bool-cases (leb 4 (length s))) [
  | inl y ↦ rw (y, find_long) a.0
  | inr n ↦ rw (n, find_long) (find_long-Shown segments a.1)
]

other_run-Shown :
    (best_idx : ℕ) (runs : List Text) (i : ℕ)
    → All Printable runs
    → Shown (other_run best_idx runs i)
unfolding other_run
other_run-Shown best_idx [] i a = tt
other_run-Shown best_idx (r ∷ runs) i a =
    elim (Bool-cases (not (i == best_idx) && leb 4 (length (clean_tag r)))) [
      | inl y ↦ rw (y, other_run) (clean_tag-Printable r a.0)
      | inr n ↦ rw (n, other_run) (other_run-Shown best_idx runs (i + 1) a.1)
    ]

-- At most 67 characters: each is printable ASCII, or the middle dot of the separator.
pub record IsTag (s : Text) : Type 0 where
  pub short : length s ≤ 67
  pub shown : All (λ c. (is_printable c ≡ true) ⊎ (c ≡ 0xB7)) s

Printable-shown : (s : Text) → Printable s → All (λ c. (is_printable c ≡ true) ⊎ (c ≡ 0xB7)) s
Printable-shown [] h = tt
Printable-shown (c ∷ s) h = (inl h.0, Printable-shown s h.1)

join_tag-IsTag :
    (pool : Text) (miner : Option Text)
    → length pool ≤ 32
    → Printable pool
    → Shown miner
    → IsTag (join_tag pool miner)
unfolding join_tag is_printable
join_tag-IsTag pool none l p m = record { short = omega arith; shown = Printable-shown pool p }
join_tag-IsTag pool (some m) l p q =
    elim (Bool-cases (not (is_empty m) && not (same_letters m pool))) [
      | inr n ↦ rw (n, join_tag) (record { short = omega arith; shown = Printable-shown pool p })
      | inl y ↦
          rw (y, join_tag)
            (record {
              short = omega (
                arith,
                length-append pool (separator ++ take 32 m),
                length-append separator (take 32 m),
                length-take 32 m,
              );
              shown = All-append _ pool (separator ++ take 32 m) (Printable-shown pool p) (
                inl refl,
                (
                  inr refl,
                  (
                    inl refl,
                    Printable-shown (take 32 m) (All-take (λ c. is_printable c ≡ true) 32 m q),
                  ),
                ),
              );
            })
    ]

pool_of-Printable :
    (best : Text) (segments : List Text)
    → Printable best
    → All Printable segments
    → Printable (pool_of best segments)
unfolding pool_of
pool_of-Printable best segments b a =
    elim (Option-cases (get_elem? segments (position_from 0 segments))) [
      | inl e ↦
          rw (e, pool_of)
            (All-take (λ c. is_printable c ≡ true) 32 (clean_tag best) (clean_tag-Printable best b))
      | inr (s, e) ↦
          rw (e, pool_of)
            (All-take (λ c. is_printable c ≡ true) 32 s
              (element-Printable segments (position_from 0 segments) s a e))
    ]

length-pool_of : (best : Text) (segments : List Text) → length (pool_of best segments) ≤ 32
unfolding pool_of
length-pool_of best segments = omega (
  arith,
  length-take {A = ℕ} 32
      (elim (get_elem? segments (position_from 0 segments)) [ none ↦ clean_tag best | some s ↦ s ]),
)

miner_of-Shown :
    (pool : Text) (segments runs : List Text) (best_idx : ℕ)
    → All Printable segments
    → All Printable runs
    → Shown (miner_of pool segments runs best_idx)
unfolding miner_of
miner_of-Shown pool segments runs best_idx a b =
    elim (Bool-cases (same_letters pool (codes "OCEAN.XYZ") || same_letters pool (codes "OCEAN"))) [
      | inr n ↦ rw (n, miner_of) tt
      | inl y ↦
          let later = drop (position_from 0 segments + 1) segments in
          let ok_later =
            find_long-Shown later (All-drop Printable (position_from 0 segments + 1) segments a) in
          elim (Option-cases (find_long later)) [
            | inl e ↦ rw (y, miner_of, e) (other_run-Shown best_idx runs 0 b)
            | inr (s, e) ↦ rw (y, miner_of, e) (subst Shown e ok_later)
          ]
    ]

tag_of-IsTag : (runs : List Text) → All Printable runs → IsTag (tag_of runs)
unfolding tag_of
tag_of-IsTag [] a = record { short = omega arith; shown = tt }
tag_of-IsTag (r ∷ runs) a =
    let best = best_run (r ∷ runs) 0 (0, r) in
    let segments = segments_of (split_slash best.1 []) in
    let b = best_run-Printable (r ∷ runs) 0 (0, r) a a.0 in
    let s = segments_of-Printable (split_slash best.1 []) (split_slash-Printable best.1 [] b tt) in
    let pool = pool_of best.1 segments in
    join_tag-IsTag pool (miner_of pool segments (r ∷ runs) best.0) (length-pool_of best.1 segments)
      (pool_of-Printable best.1 segments b s) (miner_of-Shown pool segments (r ∷ runs) best.0 s a)

-- Whatever the coinbase script holds, its tag has at most 67 characters, each of them printable
-- ASCII or the middle dot of the separator.
pub parse_coinbase_tag-IsTag : (sig_hex : Text) → IsTag (parse_coinbase_tag sig_hex)
unfolding parse_coinbase_tag
parse_coinbase_tag-IsTag sig_hex =
    tag_of-IsTag (runs_of (hex_pairs sig_hex) []) (runs_of-Printable (hex_pairs sig_hex) [] tt)
