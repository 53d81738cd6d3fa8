-- ===== src/Node/ChainSplit/Clusters.antt =====
-- The clusters count, for every hash, the peers that reported it (src/node.rs).
use bip110_crawler.Common.{
  ℕ, ◌+◌, ◌≡◌, refl, sym, ◌∙◌, subst, Bool, true, false, ◌&&◌, List, [], ◌∷◌, if◌then◌else◌, count,
  list_eq, list_eq_refl, list_eq→eq, Bool-cases, inl, inr, Text, arith,
}
use bip110_crawler.Node.{NodeInfo}
use bip110_crawler.Crawler.Worker.Expand.{one_if}
use bip110_crawler.Node.ChainSplit.{is_respondent, add_one, cluster, sizes_of, sum}

-- How many peers reported a hash.
unfoldable pub support : Text → List NodeInfo → ℕ
support hash = count (λ n. is_respondent n && list_eq n.chain_hash hash)

-- The size of a hash's cluster.
abbrev pub size : Text → List (Text × ℕ) → ℕ
size hash [] = 0
size hash ((h, n) ∷ counts) = if list_eq h hash then n else size hash counts

differ : (a b c : Text) → list_eq a b ≡ false → list_eq a c ≡ true → list_eq b c ≡ false
differ a b c e o = elim (Bool-cases (list_eq b c)) [
  | inl q ↦ absurd (cc (e, list_eq_refl a, list_eq→eq a c o ∙ sym (list_eq→eq b c q)))
  | inr q ↦ q
]

size-add_one :
    (hash k : Text) (counts : List (Text × ℕ))
    → size hash (add_one k counts) ≡ size hash counts + one_if (list_eq k hash)
unfolding add_one
size-add_one hash k [] = elim (Bool-cases (list_eq k hash)) [
  | inl e ↦ rw e refl
  | inr e ↦ rw e refl
]
size-add_one hash k ((h, n) ∷ counts) = elim (Bool-cases (list_eq h k)) [
  | inl s ↦
      let q = list_eq→eq h k s in
      elim (Bool-cases (list_eq k hash)) [
        | inl e ↦ rw (s, add_one, e, subst (λ x. list_eq x hash ≡ true) (sym q) e) refl
        | inr e ↦ rw (s, add_one, e, subst (λ x. list_eq x hash ≡ false) (sym q) e) (omega arith)
      ]
  | inr o ↦ elim (Bool-cases (list_eq h hash)) [
    | inl e ↦ rw (o, add_one, e, differ h k hash o e) (omega arith)
    | inr e ↦ rw (o, add_one, e) (size-add_one hash k counts)
  ]
]

pub size-cluster :
    (hash : Text) (peers : List NodeInfo) (counts : List (Text × ℕ))
    → size hash (cluster peers counts) ≡ size hash counts + support hash peers
unfolding cluster support count
size-cluster hash [] counts = omega arith
size-cluster hash (n ∷ peers) counts = elim (Bool-cases (is_respondent n)) [
  | inl e ↦
      rw (e, cluster)
        (size-cluster hash peers (add_one n.chain_hash counts)
          ∙ omega (arith, size-add_one hash n.chain_hash counts, same (list_eq n.chain_hash hash)))
  | inr e ↦ rw (e, cluster) (size-cluster hash peers counts ∙ omega arith)
]
  where
    same : (b : Bool) → one_if b ≡ (if b then 1 else 0)
    same true = refl
    same false = refl

sum-add_one :
    (k : Text) (counts : List (Text × ℕ))
    → sum (sizes_of (add_one k counts)) ≡ sum (sizes_of counts) + 1
unfolding add_one
sum-add_one k [] = omega arith
sum-add_one k ((h, n) ∷ counts) = elim (Bool-cases (list_eq h k)) [
  | inl s ↦ rw (s, add_one) (omega arith)
  | inr o ↦ rw (o, add_one) (omega (arith, sum-add_one k counts))
]

pub sum-cluster :
    (peers : List NodeInfo) (counts : List (Text × ℕ))
    → sum (sizes_of (cluster peers counts)) ≡ sum (sizes_of counts) + count is_respondent peers
unfolding cluster count
sum-cluster [] counts = omega arith
sum-cluster (n ∷ peers) counts = elim (Bool-cases (is_respondent n)) [
  | inl e ↦
      rw (e, cluster)
        (sum-cluster peers (add_one n.chain_hash counts)
          ∙ omega (arith, sum-add_one n.chain_hash counts))
  | inr e ↦ rw (e, cluster) (sum-cluster peers counts ∙ omega arith)
]

-- No hash has two entries that count.
abbrev pub Unique : List (Text × ℕ) → Type 0
Unique [] = Unit
Unique ((h, n) ∷ counts) = (size h counts ≡ 0) × Unique counts

add_one-Unique : (k : Text) (counts : List (Text × ℕ)) → Unique counts → Unique (add_one k counts)
unfolding add_one
add_one-Unique k [] u = (refl, tt)
add_one-Unique k ((h, n) ∷ counts) (z, u) = elim (Bool-cases (list_eq h k)) [
  | inl s ↦ rw (s, add_one) (z, u)
  | inr o ↦
      rw (o, add_one)
        (size-add_one h k counts ∙ omega (arith, z, other h k o), add_one-Unique k counts u)
]
  where
    other : (h k : Text) → list_eq h k ≡ false → one_if (list_eq k h) ≡ 0
    other h k o = elim (Bool-cases (list_eq k h)) [
      | inl q ↦ absurd (cc (o, list_eq_refl h, list_eq→eq k h q))
      | inr q ↦ rw q refl
    ]

pub cluster-Unique :
    (peers : List NodeInfo) (counts : List (Text × ℕ))
    → Unique counts
    → Unique (cluster peers counts)
unfolding cluster
cluster-Unique [] counts u = u
cluster-Unique (n ∷ peers) counts u = elim (Bool-cases (is_respondent n)) [
  | inl e ↦
      rw (e, cluster)
        (cluster-Unique peers (add_one n.chain_hash counts) (add_one-Unique n.chain_hash counts u))
  | inr e ↦ rw (e, cluster) (cluster-Unique peers counts u)
]
