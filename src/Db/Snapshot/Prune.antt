-- ===== src/Db/Snapshot/Prune.antt =====
-- What a maintenance run deletes and what it keeps (src/db.rs).
use bip110_crawler.Common.{
  ◌%◌, ◌^◌, ◌<◌, ne→==, ◌+◌, ℕ, ◌*◌, ◌≡◌, ◌⊎◌, inl, inr, refl, sym, ap, subst, Bool, true, false,
  not, List, [], ◌∷◌, some, All, Any, first, later, Text, list_eq, text_leb, filter, ok, err,
  Bool-cases, list_eq→eq, arith, keep_days_zero,
}
use mathlib.Core.Option.{some-injective}
use bip110_crawler.Node.{Edge}
use bip110_crawler.Time.{iso_secs_ago}
use bip110_crawler.Crawler.Tasks.{is_empty}
use bip110_crawler.Db.Nodes.{NodeRecord, find_row}
use bip110_crawler.Db.Snapshot.{Db, same_edge, has_edge, is_dead, is_orphan, has_node, prune}

All-filter {ℓ} :
    {A : Type ℓ} (p : A → Bool) (P : A → Type 0)
    → ((a : A) → p a ≡ true → P a)
    → (xs : List A) → All P (filter p xs)
unfolding filter
All-filter p P h [] = tt
All-filter p P h (x ∷ xs) = elim (Bool-cases (p x)) [
  | inl y ↦ rw y (h x y, All-filter p P h xs)
  | inr n ↦ rw n (All-filter p P h xs)
]

-- Every element of one list stands in another.
abbrev pub Within : {A : Type 0} → List A → List A → Type 0
Within xs ys = All (λ x. Any (λ y. y ≡ x) ys) xs

Within-more : {A : Type 0} (xs : List A) (y : A) (ys : List A) → Within xs ys → Within xs (y ∷ ys)
Within-more [] y ys w = tt
Within-more (x ∷ xs) y ys w = (later w.0, Within-more xs y ys w.1)

Within-filter : {A : Type 0} (p : A → Bool) (xs : List A) → Within (filter p xs) xs
unfolding filter
Within-filter p [] = tt
Within-filter p (x ∷ xs) =
    let rest = Within-more (filter p xs) x xs (Within-filter p xs) in
    elim (Bool-cases (p x)) [ inl y ↦ rw y (first refl, rest) | inr n ↦ rw n rest ]

has_edge-filter :
    (p : Edge → Bool) (e : Edge) (edges : List Edge)
    → ((f : Edge) → same_edge f e ≡ true → p f ≡ true)
    → has_edge e edges ≡ true
    → has_edge e (filter p edges) ≡ true
unfolding has_edge filter
has_edge-filter p e [] h q = cc
has_edge-filter p e (f ∷ edges) h q = elim (Bool-cases (same_edge f e)) [
  | inl same ↦ rw (h f same, same) refl
  | inr other ↦
      let rest = has_edge-filter p e edges h (rw other at q) in
      elim (Bool-cases (p f)) [ inl y ↦ rw (y, other) rest | inr n ↦ rw n rest ]
]

unwrapped : (n : ℕ) → n < 2 ^ 64 → n % 2 ^ 64 ≡ n
unwrapped n h = omega arith

module _ {F : Type 0} where
  -- Our own node, or one that was confirmed reachable at or after the cutoff.
  abbrev pub Confirmed : Text → NodeRecord F → Type 0
  Confirmed cutoff r =
      (r.depth ≡ 0) ⊎ ((is_empty r.last_seen ≡ false) × (text_leb cutoff r.last_seen ≡ true))

  Confirmed-alive :
      (cutoff : Text) (r : NodeRecord F) → is_dead cutoff r ≡ false → Confirmed cutoff r
  unfolding is_dead
  Confirmed-alive cutoff r h = ground (arith, h)

  alive-Confirmed :
      (cutoff : Text) (r : NodeRecord F) → Confirmed cutoff r → is_dead cutoff r ≡ false
  unfolding is_dead
  alive-Confirmed cutoff r h = ground (arith, h)

  find_row-filter :
      (p : NodeRecord F → Bool) (addr : Text) (rows : List (NodeRecord F)) (r : NodeRecord F)
      → find_row addr rows ≡ some r
      → p r ≡ true
      → find_row addr (filter p rows) ≡ some r
  unfolding find_row filter
  find_row-filter p addr [] r q h = absurd (cc)
  find_row-filter p addr (s ∷ rows) r q h = elim (Bool-cases (list_eq s.addr addr)) [
    | inl here ↦
        let same : s ≡ r = some-injective _ _ (rw here at q) in
        let passes : p s ≡ true = subst (λ x. p x ≡ true) (sym same) h in
        rw (passes, here) (ap some same)
    | inr there ↦
        let rest = find_row-filter p addr rows r (rw there at q) h in
        elim (Bool-cases (p s)) [ inl y ↦ rw (y, there) rest | inr n ↦ rw n rest ]
  ]

  abbrev pub Linked : List (NodeRecord F) → Edge → Type 0
  Linked rows e = (has_node e.from rows ≡ true) × (has_node e.to rows ≡ true)

  not_orphan :
      (rows : List (NodeRecord F)) (e : Edge) → not (is_orphan rows e) ≡ true → Linked rows e
  unfolding is_orphan
  not_orphan rows e h = ground (arith, h)

  Linked-not_orphan :
      (rows : List (NodeRecord F)) (e f : Edge)
      → Linked rows e
      → same_edge f e ≡ true
      → not (is_orphan rows f) ≡ true
  unfolding is_orphan same_edge
  Linked-not_orphan rows e f (a, b) s =
      let both : (list_eq f.from e.from ≡ true) × (list_eq f.to e.to ≡ true) = ground arith in
      let from : has_node f.from rows ≡ true = rw (list_eq→eq _ _ both.0) a in
      let to : has_node f.to rows ≡ true = rw (list_eq→eq _ _ both.1) b in rw (from, to) refl

  -- What a run leaves behind, told without its queries.
  pub record Pruned (cutoff : Text) (before after : Db F) : Type 0 where
    pub confirmed : All (Confirmed cutoff) after.nodes
    pub rows : Within after.nodes before.nodes
    pub kept :
        (addr : Text) (r : NodeRecord F)
        → find_row addr before.nodes ≡ some r
        → Confirmed cutoff r
        → find_row addr after.nodes ≡ some r
    pub linked : All (Linked after.nodes) after.edges
    pub edges : Within after.edges before.edges
    pub kept_edges :
        (e : Edge)
        → has_edge e before.edges ≡ true
        → Linked after.nodes e
        → has_edge e after.edges ≡ true
    pub blocks : after.blocks ≡ before.blocks
    pub history : after.history ≡ before.history

  -- A maintenance run with a positive number of days, of which the seconds fit into 64 bits, leaves exactly the nodes that are our own or
  -- were confirmed reachable within those days, each with its row unchanged, and exactly the edges
  -- of which both ends are left; blocks and history stay. With 0 days it refuses.
  pub prune-Pruned :
      (now keep_days : ℕ) (db : Db F)
      → (keep_days + 1) * 86400 < 2 ^ 64
      → (prune now 0 db ≡ err keep_days_zero)
        × ((after : Db F) × (prune now (keep_days + 1) db ≡ ok after)
            × Pruned (iso_secs_ago now ((keep_days + 1) * 86400)) db after)
  unfolding prune
  prune-Pruned now keep_days db fits = (
    refl,
    rw
        (
          ne→== (keep_days + 1) 0 (λ e. absurd (omega (arith, e))),
          unwrapped ((keep_days + 1) * 86400) fits,
        )
        (let cutoff = iso_secs_ago now ((keep_days + 1) * 86400) in
          let alive = λ (r : NodeRecord F). not (is_dead cutoff r) in
          let kept = filter alive db.nodes in
          let linked = λ (e : Edge). not (is_orphan kept e) in
          (
            record db { nodes = kept; edges = filter linked db.edges },
            refl,
            record {
              confirmed =
                  All-filter alive (Confirmed cutoff)
                    (λ r e. Confirmed-alive cutoff r (ground (arith, e))) db.nodes;
              rows = Within-filter alive db.nodes;
              kept = λ addr r q c.
                  find_row-filter alive addr db.nodes r q (ap not (alive-Confirmed cutoff r c));
              linked = All-filter linked (Linked kept) (not_orphan kept) db.edges;
              edges = Within-filter linked db.edges;
              kept_edges = λ e q l.
                  has_edge-filter linked e db.edges (λ f s. Linked-not_orphan kept e f l s) q;
              blocks = refl;
              history = refl;
            },
          )),
  )
