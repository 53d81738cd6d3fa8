-- ===== src/Crawler/System/Ends/Measure.antt =====
-- The weight of what is queued, and of the peers that are not seen yet (src/crawler.rs).
use bip110_crawler.Common.{
  ℕ, sym, ◌+◌, ◌≤◌, ◌≡◌, refl, ap, ◌∙◌, subst, Bool, true, false, not, ◌&&◌, List, [], ◌∷◌, ◌++◌,
  All, if◌then◌else◌, Text, arith, Bool-cases, inl, inr,
}
use mathlib.Core.List.{reverse, reverse-append}
use bip110_crawler.P2p.Peer.{Peer, is_onion}
use bip110_crawler.Node.{Edge}
use bip110_crawler.Crawler.{Task, CrawlConfig, Frontier}
use bip110_crawler.Crawler.Tasks.{got, next_task, finish_task}
use bip110_crawler.Crawler.Worker.{
  peer_eq, has_seen, Expansion, record_edge, enqueue, expand_child, expand_loop, expand,
}
use bip110_crawler.Crawler.Worker.Equality.{peer_eq→eq, peer_eq_refl}

-- A task weighs `k`.
abbrev pub load : ℕ → List Task → ℕ
load k [] = 0
load k (t ∷ ts) = k + load k ts

pub load-append : (k : ℕ) (xs ys : List Task) → load k (xs ++ ys) ≡ load k xs + load k ys
load-append k [] ys = omega arith
load-append k (x ∷ xs) ys = omega (arith, load-append k xs ys)

pub load-reverse : (k : ℕ) (xs : List Task) → load k (reverse xs) ≡ load k xs
load-reverse k [] = refl
load-reverse k (x ∷ xs) =
    ap (load k) (reverse-append (x ∷ []) xs)
    ∙ load-append k (reverse xs) (x ∷ [])
    ∙ omega (arith, load-reverse k xs)

-- A peer of the universe that is not seen yet weighs as much as its task.
abbrev pub unseen : ℕ → List Peer → List Peer → ℕ
unseen k [] seen = 0
unseen k (u ∷ us) seen = (if has_seen u seen then 0 else k) + unseen k us seen

-- A peer of the universe.
abbrev pub IsTold : List Peer → Peer → Type 0
IsTold universe p = has_seen p universe ≡ true

unseen_more :
    (k : ℕ) (us : List Peer) (c : Peer) (seen : List Peer)
    → unseen k us (c ∷ seen) ≤ unseen k us seen
unfolding has_seen
unseen_more k [] c seen = omega arith
unseen_more k (u ∷ us) c seen = ground (arith, unseen_more k us c seen)

-- To see a peer of the universe for the first time pays for its task.
unseen_new :
    (k : ℕ) (us : List Peer) (c : Peer) (seen : List Peer)
    → has_seen c us ≡ true
    → has_seen c seen ≡ false
    → unseen k us (c ∷ seen) + k ≤ unseen k us seen
unfolding has_seen
unseen_new k [] c seen h new = cc
unseen_new k (u ∷ us) c seen h new = elim (Bool-cases (peer_eq u c)) [
  | inl e ↦
      let same : u ≡ c = peer_eq→eq u c e in
      let old : has_seen u seen ≡ false = subst (λ p. has_seen p seen ≡ false) (sym same) new in
      let meets : peer_eq c u ≡ true =
        subst (λ p. peer_eq c p ≡ true) (sym same) (peer_eq_refl c) in
      rw (meets, old) (omega (arith, unseen_more k us c seen))
  | inr e ↦ ground (arith, unseen_new k us c seen (ground (arith, h, e)) new)
]

-- New tasks and unseen peers.
abbrev left : ℕ → List Peer → Expansion → ℕ
left k us x = load k x.new_clearnet + load k x.new_onion + unseen k us x.seen

module _ (show : Peer → Text) (cfg : CrawlConfig) (addr : Peer) (depth k : ℕ) (us : List Peer) where
  enqueue-left :
      (child : Peer) (x : Expansion)
      → IsTold us child
      → left k us (enqueue depth child x) ≤ left k us x
  unfolding enqueue
  enqueue-left child x told = elim (Bool-cases (has_seen child x.seen)) [
    | inl old ↦ rw (old, enqueue) (omega arith)
    | inr new ↦ elim (Bool-cases (is_onion child)) [
      | inl o ↦
          rw (new, o, enqueue)
            (omega (
              arith,
              load-append k x.new_onion ((child, depth + 1) ∷ []),
              unseen_new k us child x.seen told new,
            ))
      | inr c ↦
          rw (new, c, enqueue)
            (omega (
              arith,
              load-append k x.new_clearnet ((child, depth + 1) ∷ []),
              unseen_new k us child x.seen told new,
            ))
    ]
  ]

  record_edge-left :
      (child : Peer) (x : Expansion) → left k us (record_edge show cfg addr child x) ≡ left k us x
  unfolding record_edge
  record_edge-left child x = ground arith

  expand_child-left :
      (child : Peer) (x : Expansion)
      → IsTold us child
      → left k us (expand_child show cfg addr depth child x) ≤ left k us x
  unfolding expand_child
  expand_child-left child x told = elim (Bool-cases (is_onion child && not cfg.tor)) [
    | inl skip ↦ rw (skip, expand_child) (omega arith)
    | inr keep ↦
        let y = record_edge show cfg addr child x in
        rw (keep, expand_child) (omega (arith, enqueue-left child y told, record_edge-left child x))
  ]

  expand_loop-left :
      (discovered : List Peer) (x : Expansion)
      → All (IsTold us) discovered
      → left k us (expand_loop show cfg addr depth discovered x) ≤ left k us x
  unfolding expand_loop
  expand_loop-left [] x told = omega arith
  expand_loop-left (child ∷ discovered) x told = omega (
    arith,
    expand_child-left child x told.0,
    expand_loop-left discovered (expand_child show cfg addr depth child x) told.1,
  )

-- What a peer tells of costs no more than the unseen peers that become seen.
pub expand-unseen :
    (show : Peer → Text) (cfg : CrawlConfig) (k : ℕ) (us : List Peer) (t : Task)
    (discovered seen : List Peer) (edges : List Edge)
    → All (IsTold us) discovered
    → (let x = expand show cfg t discovered seen edges in
        load k x.new_clearnet + load k x.new_onion + unseen k us x.seen ≤ unseen k us seen)
unfolding expand
expand-unseen show cfg k us (addr, depth) discovered seen edges told =
    let x : Expansion = record {
      seen = seen;
      edges = edges;
      recorded = 0;
      new_clearnet = [];
      new_onion = [];
    } in
    omega (arith, expand_loop-left show cfg addr depth k us discovered x told)

-- The two stacks.
abbrev pub stacks : ℕ → Frontier → ℕ
stacks k f = load k f.clearnet + load k f.onion

pub took-load :
    (k : ℕ) (op : Bool) (f f' : Frontier) (t : Task)
    → next_task op f ≡ got t f'
    → stacks k f' + k ≡ stacks k f
unfolding next_task
took-load k op f f' t e = ground arith

pub finished-load :
    (k : ℕ) (f : Frontier) (nc ns : List Task)
    → stacks k (finish_task f nc ns).0 ≡ stacks k f + (load k nc + load k ns)
unfolding finish_task
finished-load k f nc ns = omega (
  arith,
  load-append k (reverse nc) f.clearnet,
  load-append k (reverse ns) f.onion,
  load-reverse k nc,
  load-reverse k ns,
)
