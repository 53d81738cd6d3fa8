-- ===== src/Node/ChainSplit/Large.antt =====
-- Two large clusters, found in the sizes and in the peers (src/node.rs).
use bip110_crawler.Common.{
  ℕ, ◌≤◌, ◌≡◌, ◌≢◌, ◌↔◌, refl, sym, ◌∙◌, subst, true, false, List, [], ◌∷◌, leb, get_or, count,
  count-sort_by, sort_descending, sort_descending-Sorted, geb, Sorted, All, list_eq, list_eq_refl,
  list_eq→eq, Bool-cases, inl, inr, Text, arith,
}
use bip110_crawler.Node.{NodeInfo}
use bip110_crawler.Node.ChainSplit.{cluster, sizes_of}
use bip110_crawler.Node.ChainSplit.Clusters.{support, size, size-cluster, Unique, cluster-Unique}

-- Two hashes of at least `k` each.
pub record TwoLarge (k : ℕ) (weight : Text → ℕ) : Type 0 where
  pub a : Text
  pub b : Text
  pub distinct : a ≢ b
  pub large_a : k ≤ weight a
  pub large_b : k ≤ weight b

module _ (k : ℕ) (positive : 1 ≤ k) where
  abbrev large : List (Text × ℕ) → ℕ
  large counts = count (leb k) (sizes_of counts)

  size-large : (a : Text) (counts : List (Text × ℕ)) → k ≤ size a counts → 1 ≤ large counts
  unfolding count
  size-large a [] h = omega arith
  size-large a ((x, n) ∷ counts) h = elim (Bool-cases (list_eq x a)) [
    | inl e ↦ let big : k ≤ n = rw e at h in ground arith
    | inr e ↦ let big : k ≤ size a counts = rw e at h in omega (arith, size-large a counts big)
  ]

  pair-large :
      (a b : Text) (counts : List (Text × ℕ))
      → a ≢ b
      → k ≤ size a counts
      → k ≤ size b counts
      → 2 ≤ large counts
  unfolding count
  pair-large a b [] d h h' = absurd (omega arith)
  pair-large a b ((x, n) ∷ counts) d h h' = elim (Bool-cases (list_eq x a)) [
    | inl e ↦ elim (Bool-cases (list_eq x b)) [
      | inl e' ↦ absurd (d (sym (list_eq→eq x a e) ∙ list_eq→eq x b e'))
      | inr e' ↦
          let big : k ≤ n = rw e at h in
          let other : k ≤ size b counts = rw e' at h' in ground (arith, size-large b counts other)
    ]
    | inr e ↦ elim (Bool-cases (list_eq x b)) [
      | inl e' ↦
          let big : k ≤ n = rw e' at h' in
          let other : k ≤ size a counts = rw e at h in ground (arith, size-large a counts other)
      | inr e' ↦ omega (arith, pair-large a b counts d (rw e at h) (rw e' at h'))
    ]
  ]

  -- An entry that is large, apart from a hash that no later entry has.
  large-size :
      (h : Text) (counts : List (Text × ℕ))
      → Unique counts
      → size h counts ≡ 0
      → 1 ≤ large counts
      → (b : Text) × (h ≢ b) × (k ≤ size b counts)
  unfolding count
  large-size h [] u z l = absurd (omega arith)
  large-size h ((x, n) ∷ counts) (w, u) z l = elim (Bool-cases (leb k n)) [
    | inl e ↦ (x, apart e, rw (list_eq_refl x) (ground arith))
    | inr e ↦
        let (b, d, s) = large-size x counts u w (ground (arith, rw e at l)) in
        let away : list_eq x b ≡ false = ne_list x b d in (b, elsewhere b d s, rw away s)
  ]
    where
      ne_list : (x b : Text) → x ≢ b → list_eq x b ≡ false
      ne_list x b d = elim (Bool-cases (list_eq x b)) [
        | inl q ↦ absurd (d (list_eq→eq x b q))
        | inr q ↦ q
      ]

      apart : leb k n ≡ true → h ≢ x
      apart e q = ground (arith, list_eq_refl x, subst (λ y. size y ((x, n) ∷ counts) ≡ 0) q z)

      elsewhere : (b : Text) → x ≢ b → k ≤ size b counts → h ≢ b
      elsewhere b d s q =
          let none_here : size b ((x, n) ∷ counts) ≡ 0 =
            subst (λ (y : Text). size y ((x, n) ∷ counts) ≡ 0) q z in
          let none_later : size b counts ≡ 0 = rw (ne_list x b d) at none_here in
          absurd (omega arith)

  large-TwoLarge :
      (counts : List (Text × ℕ))
      → Unique counts
      → 2 ≤ large counts
      → TwoLarge k (λ h. size h counts)
  unfolding count
  large-TwoLarge [] u l = absurd (omega arith)
  large-TwoLarge ((x, n) ∷ counts) (w, u) l = elim (Bool-cases (leb k n)) [
    | inl e ↦
        let (b, d, s) = large-size x counts u w (omega (arith, rw e at l)) in
        record {
          a = x;
          b = b;
          distinct = d;
          large_a = rw (list_eq_refl x) (ground arith);
          large_b = later b d s;
        }
    | inr e ↦
        let t = large-TwoLarge counts u (ground (arith, rw e at l)) in
        record {
          a = t.a;
          b = t.b;
          distinct = t.distinct;
          large_a = later t.a (unlike t.a t.large_a) t.large_a;
          large_b = later t.b (unlike t.b t.large_b) t.large_b;
        }
  ]
    where
      later : (b : Text) → x ≢ b → k ≤ size b counts → k ≤ size b ((x, n) ∷ counts)
      later b d s = elim (Bool-cases (list_eq x b)) [
        | inl q ↦ absurd (d (list_eq→eq x b q))
        | inr q ↦ rw q s
      ]

      unlike : (b : Text) → k ≤ size b counts → x ≢ b
      unlike b s q = absurd (omega (arith, subst (λ (y : Text). size y counts ≡ 0) q w))

  -- The second size of the descending list is large exactly when two are.
  second-large :
      (sizes : List ℕ) → Sorted geb sizes → (k ≤ get_or sizes 1 0) ↔ (2 ≤ count (leb k) sizes)
  unfolding count
  second-large [] s = ((λ h. absurd (omega arith)), (λ h. absurd (omega arith)))
  second-large (x ∷ []) s = ((λ h. absurd (omega arith)), (λ h. absurd (ground arith)))
  second-large (x ∷ y ∷ sizes) ((xy, _), (ys, _)) = (
    (λ h. ground arith),
    (λ h. elim (Bool-cases (leb k y)) [
      | inl e ↦ ground arith
      | inr e ↦ absurd (ground (arith, few y sizes ys e))
    ]),
  )
    where
      few :
          (y : ℕ) (rest : List ℕ)
          → All (λ z. geb y z ≡ true) rest
          → leb k y ≡ false
          → count (leb k) rest ≡ 0
      few y [] a e = refl
      few y (z ∷ rest) a e = ground (arith, a.0, few y rest a.1 e)

  -- The second-largest cluster has `k` peers exactly when two hashes have `k` peers each.
  pub second-TwoLarge :
      (peers : List NodeInfo)
      → (k ≤ get_or (sort_descending (sizes_of (cluster peers []))) 1 0)
        ↔ TwoLarge k (λ h. support h peers)
  second-TwoLarge peers = (
    (λ h.
        from_counts
          (large-TwoLarge counts (cluster-Unique peers [] tt) (omega (arith, second.0 h, same)))),
    (λ t. second.1 (
        omega (
          arith,
          same,
          pair-large t.a t.b counts t.distinct (omega (arith, t.large_a, size-cluster t.a peers []))
              (omega (arith, t.large_b, size-cluster t.b peers [])),
        ))),
  )
    where
      counts : List (Text × ℕ)
      counts = cluster peers []

      second :
          (k ≤ get_or (sort_descending (sizes_of counts)) 1 0)
          ↔ (2 ≤ count (leb k) (sort_descending (sizes_of counts)))
      second =
          second-large (sort_descending (sizes_of counts))
            (sort_descending-Sorted (sizes_of counts))

      same : count (leb k) (sort_descending (sizes_of counts)) ≡ large counts
      same = count-sort_by (leb k) geb (sizes_of counts)

      from_counts : TwoLarge k (λ h. size h counts) → TwoLarge k (λ h. support h peers)
      from_counts t = record {
        a = t.a;
        b = t.b;
        distinct = t.distinct;
        large_a = omega (arith, t.large_a, size-cluster t.a peers []);
        large_b = omega (arith, t.large_b, size-cluster t.b peers []);
      }
