-- ===== src/History/Merge/Lookup.antt =====
-- Looking a node up behind the operations of a merge (src/history.rs).
use bip110_crawler.Common.{
  ◌≡◌, inl, inr, refl, sym, ◌∙◌, subst, true, false, [], ◌∷◌, Option, none, some, if◌then◌else◌,
  list_eq, list_eq_refl, list_eq→eq, Bool-cases, Option-cases, Text,
}
use bip110_crawler.Node.{NodeInfo}
use bip110_crawler.History.{History, get, put, refresh, first_meeting, merge_one}

get-put :
    (addr key : Text) (rec : NodeInfo) (nodes : History)
    → get addr (put key rec nodes) ≡ (if list_eq key addr then some rec else get addr nodes)
unfolding get put
get-put addr key rec [] = refl
get-put addr key rec ((k, old) ∷ nodes) = elim (Bool-cases (list_eq k key)) [
  | inl same ↦
      let e = list_eq→eq k key same in
      elim (Bool-cases (list_eq key addr)) [
        | inl here ↦ rw (same, put, here, subst (λ x. list_eq x addr ≡ true) (sym e) here) refl
        | inr there ↦ rw (same, put, there, subst (λ x. list_eq x addr ≡ false) (sym e) there) refl
      ]
  | inr other ↦ elim (Bool-cases (list_eq k addr)) [
    | inl here ↦
        let e = list_eq→eq k addr here in
        let away : list_eq key addr ≡ false = differ k key addr e other in
        rw (other, put, here, away) refl
    | inr there ↦ rw (other, put, there, get-put addr key rec nodes) refl
  ]
]
  where
    differ : (k key addr : Text) → k ≡ addr → list_eq k key ≡ false → list_eq key addr ≡ false
    differ k key addr e o = elim (Bool-cases (list_eq key addr)) [
      | inl q ↦ absurd (cc (o, list_eq_refl k, e ∙ sym (list_eq→eq key addr q)))
      | inr q ↦ q
    ]

-- What one record of the crawl makes of the entry of its node.
abbrev pub met : Text → NodeInfo → Option NodeInfo → NodeInfo
met now cur none = first_meeting now cur
met now cur (some existing) = refresh now existing cur

pub get-merge_one :
    (now addr : Text) (cur : NodeInfo) (nodes : History)
    → get addr (merge_one now cur nodes)
      ≡ (if list_eq cur.addr addr then some (met now cur (get cur.addr nodes)) else get addr nodes)
unfolding merge_one
get-merge_one now addr cur nodes = elim (Option-cases (get cur.addr nodes)) [
  | inl q ↦ rw (q, merge_one, get-put addr cur.addr (first_meeting now cur) nodes) refl
  | inr (e, q) ↦ rw (q, merge_one, get-put addr cur.addr (refresh now e cur) nodes) refl
]
