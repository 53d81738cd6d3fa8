-- ===== src/Node/ChainSplit/Verdict.antt =====
-- When the assessment says that the chain is split (src/node.rs).
use bip110_crawler.Common.{
  ℕ, ◌≤◌, ◌≡◌, ◌↔◌, ◌⊎◌, inl, inr, refl, sym, ap, ◌∙◌, subst, true, ◌||◌, List, [], ◌∷◌, ◌++◌, ltb,
  leb, get_or, count, sort_descending, list_eq→eq, list_eq_refl, Bool-cases, codes, ℤ, pos, ◌-ℤ◌,
  ltb_ℤ, abs, eq_of_parts, arith,
}
use bip110_crawler.Node.{NodeInfo}
use bip110_crawler.Node.ChainSplit.{
  ChainTip, ForkTip, active_height, forks_of, is_rejected, is_respondent, cluster, sizes_of,
  reject_recency, min_split_cluster, assess_chain_split,
}
use bip110_crawler.Node.ChainSplit.Clusters.{support, sum-cluster}
use bip110_crawler.Node.ChainSplit.Large.{TwoLarge, second-TwoLarge}

-- A branch that our node rejected, near its active tip: an `invalid` one of at least one block, at
-- most 2,016 blocks from the active height, unless that is 0 (no active tip).
pub record IsRejected (active : ℤ) (t : ChainTip) : Type 0 where
  pub invalid : t.status ≡ codes "invalid"
  pub branches : ltb_ℤ (pos 0) t.branchlen ≡ true
  pub recent : (active ≡ pos 0) ⊎ (abs (active -ℤ t.height) ≤ reject_recency)

abbrev as_fork : ChainTip → ForkTip
as_fork t = record { height = t.height; branchlen = t.branchlen; status = t.status }

is_rejected-IsRejected :
    (active : ℤ) (t : ChainTip)
    → ltb_ℤ (pos 0) t.branchlen ≡ true
    → is_rejected active (as_fork t) ≡ true
    → IsRejected active t
unfolding is_rejected
is_rejected-IsRejected active t b h = record {
  invalid = list_eq→eq _ _ (ground arith);
  branches = b;
  recent = elim (Bool-cases (leb (abs (active -ℤ t.height)) reject_recency)) [
    | inl e ↦ inr (ground arith)
    | inr e ↦ inl (eq_of_parts active (pos 0) (ground arith))
  ];
}

IsRejected-is_rejected :
    (active : ℤ) (t : ChainTip) → IsRejected active t → is_rejected active (as_fork t) ≡ true
unfolding is_rejected
IsRejected-is_rejected active t r = elim r.recent [
  | inl z ↦ ground (arith, list_eq_refl (codes "invalid"))
  | inr n ↦ ground (arith, list_eq_refl (codes "invalid"))
]

-- A tip of the list that our node rejected.
pub record RejectedTip (tips : List ChainTip) : Type 0 where
  pub before : List ChainTip
  pub tip : ChainTip
  pub after : List ChainTip
  pub stands : tips ≡ before ++ tip ∷ after
  pub rejected : IsRejected (active_height tips) tip

module _ (active : ℤ) where
  abbrev rejected_count : List ChainTip → ℕ
  rejected_count tips = count (is_rejected active) (forks_of tips)

  found :
      (tips : List ChainTip)
      → 1 ≤ rejected_count tips
      → (before : List ChainTip) × (t : ChainTip) × (after : List ChainTip) × (tips
          ≡ before ++ t ∷ after)
        × IsRejected active t
  unfolding forks_of count
  found [] h = absurd (omega arith)
  found (t ∷ tips) h = elim (Bool-cases (ltb_ℤ (pos 0) t.branchlen)) [
    | inr n ↦
        let (before, u, after, e, r) = found tips (rw (n, forks_of) at h) in
        (t ∷ before, u, after, ap (λ ts. t ∷ ts) e, r)
    | inl y ↦ elim (Bool-cases (is_rejected active (as_fork t))) [
      | inl r ↦ ([], t, tips, refl, is_rejected-IsRejected active t y r)
      | inr n ↦
          let (before, u, after, e, r) =
            found tips (ground (arith, rw (y, forks_of, count, n) at h)) in
          (t ∷ before, u, after, ap (λ ts. t ∷ ts) e, r)
    ]
  ]

  counted :
      (before : List ChainTip) (t : ChainTip) (after : List ChainTip)
      → IsRejected active t
      → 1 ≤ rejected_count (before ++ t ∷ after)
  unfolding forks_of count
  counted [] t after r = rw (r.branches, forks_of, IsRejected-is_rejected active t r) (omega arith)
  counted (u ∷ before) t after r = elim (Bool-cases (ltb_ℤ (pos 0) u.branchlen)) [
    | inl y ↦ rw (y, forks_of) (omega (arith, counted before t after r))
    | inr n ↦ rw (n, forks_of) (counted before t after r)
  ]

-- The assessment says `split` exactly when our own node rejected a branch near its active tip, or
-- two different block hashes are each supported by at least ten peers that reported one.
pub assess_chain_split-split :
    (tips : List ChainTip) (peers : List NodeInfo)
    → ((assess_chain_split tips peers).split ≡ true)
      ↔ (RejectedTip tips ⊎ TwoLarge min_split_cluster (λ h. support h peers))
unfolding assess_chain_split
assess_chain_split-split tips peers = (forth, back)
  where
    active : ℤ
    active = active_height tips

    second : ℕ
    second = get_or (sort_descending (sizes_of (cluster peers []))) 1 0

    chains : (10 ≤ second) ↔ TwoLarge 10 (λ h. support h peers)
    chains = second-TwoLarge 10 (omega arith) peers

    forth :
        (ltb 0 (rejected_count active tips) || leb 10 second) ≡ true
        → RejectedTip tips ⊎ TwoLarge 10 (λ h. support h peers)
    forth h = elim (Bool-cases (ltb 0 (rejected_count active tips))) [
      | inl y ↦
          let (before, t, after, e, r) = found active tips (ground arith) in
          inl (record { before = before; tip = t; after = after; stands = e; rejected = r })
      | inr n ↦ inr (chains.0 (ground arith))
    ]

    back :
        RejectedTip tips ⊎ TwoLarge 10 (λ h. support h peers)
        → (ltb 0 (rejected_count active tips) || leb 10 second) ≡ true
    back (inl r) = ground (
      arith,
      subst (λ ts. 1 ≤ rejected_count active ts) (sym r.stands)
          (counted active r.before r.tip r.after r.rejected),
    )
    back (inr t) = ground (arith, chains.1 t)

-- The survey's population is the number of peers that completed a handshake and reported a hash.
pub assess_chain_split-responded :
    (tips : List ChainTip) (peers : List NodeInfo)
    → (assess_chain_split tips peers).responded ≡ count is_respondent peers
unfolding assess_chain_split
assess_chain_split-responded tips peers = sum-cluster peers [] ∙ omega arith
