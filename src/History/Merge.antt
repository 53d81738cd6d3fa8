-- ===== src/History/Merge.antt =====
-- What a merge makes of each node: nothing is dropped, and who is online was met (src/history.rs).
pub mod Lookup
pub mod Addresses
use bip110_crawler.Common.{
  ◌≤◌, ◌≡◌, ◌≢◌, inl, inr, refl, sym, ap, ◌∙◌, subst, true, false, List, [], ◌∷◌, ◌++◌, Option,
  none, some, if◌then◌else◌, list_eq, list_eq_refl, list_eq→eq, Bool-cases, Option-cases, Text,
  arith,
}
use bip110_crawler.Node.{NodeInfo}
use mathlib.Core.Option.{some-injective}
use bip110_crawler.Crawler.Tasks.{is_empty}
use bip110_crawler.History.{
  History, get, put, refresh, first_meeting, merge_one, merge_each, has_addr, settle, merge,
}
use bip110_crawler.History.Merge.Lookup.{met, get-merge_one}

-- What a later record keeps of an earlier one.
pub record Carries (r r' : NodeInfo) : Type 0 where
  pub times : r.times_seen ≤ r'.times_seen
  pub first : r.first_seen ≢ [] → r'.first_seen ≡ r.first_seen

nonempty : (s : Text) → s ≢ [] → is_empty s ≡ false
unfolding is_empty
nonempty [] h = absurd (h refl)
nonempty (c ∷ s) h = refl

refresh-Carries : (now : Text) (r cur : NodeInfo) → Carries r (refresh now r cur)
unfolding refresh
refresh-Carries now r cur = elim (Bool-cases cur.handshaked) [
  | inl e ↦
      rw (e, refresh)
        (record { times = omega arith; first = λ n. rw (nonempty r.first_seen n) refl })
  | inr e ↦ rw (e, refresh) (record { times = omega arith; first = λ n. refl })
]

merge_each-Carries :
    (now addr : Text) (current : List NodeInfo) (nodes : History) (r : NodeInfo)
    → get addr nodes ≡ some r
    → (r' : NodeInfo) × (get addr (merge_each now current nodes) ≡ some r') × Carries r r'
unfolding merge_each
merge_each-Carries now addr [] nodes r e = (r, e, record { times = omega arith; first = λ n. refl })
merge_each-Carries now addr (cur ∷ current) nodes r e = elim (Bool-cases (list_eq cur.addr addr)) [
  | inr other ↦
      merge_each-Carries now addr current (merge_one now cur nodes) r
        (rw (get-merge_one now addr cur nodes, other) e)
  | inl same ↦
      let known : get cur.addr nodes ≡ some r =
        subst (λ x. get x nodes ≡ some r) (sym (list_eq→eq cur.addr addr same)) e in
      let one : get addr (merge_one now cur nodes) ≡ some (refresh now r cur) =
        rw (get-merge_one now addr cur nodes, same, known) refl in
      let (r', q, c) =
        merge_each-Carries now addr current (merge_one now cur nodes) (refresh now r cur) one in
      let b = refresh-Carries now r cur in
      (
        r',
        q,
        record {
          times = omega (arith, b.times, c.times);
          first = λ n. c.first (λ z. n (sym (b.first n) ∙ z)) ∙ b.first n;
        },
      )
]

settle-found :
    (addr : Text) (current : List NodeInfo) (nodes : History) (r : NodeInfo)
    → get addr nodes ≡ some r
    → get addr (settle current nodes)
      ≡ some (if has_addr addr current then r else record r { online = false })
unfolding get settle
settle-found addr current [] r e = absurd (cc)
settle-found addr current ((k, rec) ∷ nodes) r e = elim (Bool-cases (list_eq k addr)) [
  | inl s ↦ rw (s, get, list_eq→eq k addr s, some-injective _ _ (rw (s, get) at e)) refl
  | inr o ↦ rw (o, get) (settle-found addr current nodes r (rw (o, get) at e))
]

-- A merge drops no node: one that was known stays, seen at least as often, and with its first
-- sighting if it had one.
pub merge-Carries :
    (nodes : History) (current : List NodeInfo) (now addr : Text) (r : NodeInfo)
    → get addr nodes ≡ some r
    → (r' : NodeInfo) × (get addr (merge nodes current now) ≡ some r') × Carries r r'
unfolding merge
merge-Carries nodes current now addr r e =
    let (r', q, c) = merge_each-Carries now addr current nodes r e in
    elim (Bool-cases (has_addr addr current)) [
      | inl h ↦ (r', settle-found addr current _ r' q ∙ rw h refl, c)
      | inr h ↦ (
        record r' { online = false },
        settle-found addr current _ r' q ∙ rw h refl,
        record { times = c.times; first = c.first },
      )
    ]

merge_each-absent :
    (now addr : Text) (current : List NodeInfo) (nodes : History)
    → has_addr addr current ≡ false
    → get addr (merge_each now current nodes) ≡ get addr nodes
unfolding merge_each has_addr
merge_each-absent now addr [] nodes h = refl
merge_each-absent now addr (cur ∷ current) nodes h = elim (Bool-cases (list_eq cur.addr addr)) [
  | inl s ↦ absurd (cc (rw (s, has_addr) at h))
  | inr o ↦
      merge_each-absent now addr current (merge_one now cur nodes) (rw (o, has_addr) at h)
      ∙ rw (get-merge_one now addr cur nodes, o) refl
]

-- A node that this crawl did not meet keeps its record, marked offline.
pub merge-absent :
    (nodes : History) (current : List NodeInfo) (now addr : Text) (r : NodeInfo)
    → has_addr addr current ≡ false
    → get addr nodes ≡ some r
    → get addr (merge nodes current now) ≡ some (record r { online = false })
unfolding merge
merge-absent nodes current now addr r h e =
    settle-found addr current _ r (merge_each-absent now addr current nodes h ∙ e) ∙ rw h refl

-- The record of a node that this crawl met, by the last report on it.
pub record Reported (now : Text) (cur r : NodeInfo) : Type 0 where
  pub online_iff : r.online ≡ cur.handshaked
  pub stamped :
      cur.handshaked ≡ true
      → (r.last_seen ≡ now) × (1 ≤ r.times_seen) × (r.user_agent ≡ cur.user_agent)

met-Reported :
    (now : Text) (cur : NodeInfo) (old : Option NodeInfo) → Reported now cur (met now cur old)
unfolding first_meeting refresh
met-Reported now cur none = record {
  online_iff = ground arith;
  stamped = λ h. rw (h, first_meeting) (refl, omega arith, refl);
}
met-Reported now cur (some r) = record {
  online_iff = ground arith;
  stamped = λ h. rw (h, refresh) (refl, omega arith, refl);
}

merge_each-append :
    (now : Text) (xs ys : List NodeInfo) (nodes : History)
    → merge_each now (xs ++ ys) nodes ≡ merge_each now ys (merge_each now xs nodes)
unfolding merge_each
merge_each-append now [] ys nodes = refl
merge_each-append now (x ∷ xs) ys nodes = merge_each-append now xs ys (merge_one now x nodes)

has_addr-middle :
    (xs : List NodeInfo) (cur : NodeInfo) (ys : List NodeInfo)
    → has_addr cur.addr (xs ++ cur ∷ ys) ≡ true
unfolding has_addr
has_addr-middle [] cur ys = rw (list_eq_refl cur.addr) refl
has_addr-middle (x ∷ xs) cur ys = ground (arith, has_addr-middle xs cur ys)

-- A node that this crawl met is known after the merge, and the last report on it decides: it is
-- online exactly when that one completed a handshake, and then it carries the stamp `now`, the
-- reported user agent and a sighting.
pub merge-Reported :
    (nodes : History) (earlier : List NodeInfo) (cur : NodeInfo) (later : List NodeInfo)
    (now : Text)
    → has_addr cur.addr later ≡ false
    → (r : NodeInfo) × (get cur.addr (merge nodes (earlier ++ cur ∷ later) now) ≡ some r)
      × Reported now cur r
unfolding merge merge_each
merge-Reported nodes earlier cur later now h =
    let before = merge_each now earlier nodes in
    let r = met now cur (get cur.addr before) in
    let found : get cur.addr (merge_each now (earlier ++ cur ∷ later) nodes) ≡ some r =
      ap (get cur.addr) (merge_each-append now earlier (cur ∷ later) nodes)
      ∙ merge_each-absent now cur.addr later (merge_one now cur before) h
      ∙ rw (get-merge_one now cur.addr cur before, list_eq_refl cur.addr) refl in
    (
      r,
      settle-found cur.addr (earlier ++ cur ∷ later) _ r found
          ∙ rw (has_addr-middle earlier cur later) refl,
      met-Reported now cur (get cur.addr before),
    )
