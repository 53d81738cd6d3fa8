-- ===== src/Cycle/Seeds/Begins/Sources.antt =====
-- Where the seeds of a cycle come from: what holds of all of them holds of each source's (src/main.rs:
-- run_cycle).
use bip110_crawler.Common.{
  ℕ, ◌≡◌, refl, ap, Bool, true, false, List, [], ◌∷◌, Option, none, some, map, All, Text,
  Bool-cases, inl, inr, arith, ok, err, ok-injective, no_seeds, if◌then◌else◌, subst, bind_ok, sym,
  ◌⊎◌, Option-cases, ◌∙◌,
}
use bip110_crawler.Node.{Rule}
use bip110_crawler.P2p.Peer.{Peer}
use bip110_crawler.Rpc.Replies.{RpcPeer}
use bip110_crawler.Crawler.System.Start.{Seed}
use bip110_crawler.Cycle.Seeds.{
  Answers, Gathered, placeholder_peer, or_no_peers, is_crawlable, has_real_seed, rpc_seeds,
  ask_node, reseed, texts_of, has_text,
}

-- Our own node's placeholder and its peers.
abbrev pub asked_peers : Option Answers → List Peer
asked_peers none = []
asked_peers (some a) = placeholder_peer ∷ map (λ (p : RpcPeer). p.peer) (or_no_peers a.peer_info)

abbrev pub known_of : Option (List Text) → List Text
known_of none = []
known_of (some ks) = ks

-- What holds of every peer of the seeds holds of one that can be crawled.
pub has_real_seed-found :
    (P : Peer → Type 0) (seeds : List Seed)
    → has_real_seed seeds ≡ true
    → All (λ d. P d.0) seeds
    → (d : Seed) × (is_crawlable d ≡ true) × P d.0
unfolding has_real_seed
has_real_seed-found P [] e h = absurd (cc e)
has_real_seed-found P (d ∷ seeds) e h = elim (Bool-cases (is_crawlable d)) [
  | inl real ↦ (d, real, h.0)
  | inr fake ↦ has_real_seed-found P seeds (ground arith) h.1
]

-- The check of the seeds, as an inversion.
pub accepted :
    (real : Bool) (g : Gathered) (seeds : List Seed) {g' : Gathered}
    → (if real then ok (record g { seeds = seeds }) else err no_seeds) ≡ ok g'
    → (real ≡ true) × (g'.seeds ≡ seeds)
accepted true g seeds e = (refl, sym (ap (λ (x : Gathered). x.seeds) (ok-injective e)))
accepted false g seeds e = absurd (cc e)

module _ (lower_other : ℕ → Text) (show : Peer → Text) (parse : Text → ℕ → Option Peer) where
  rpc_seeds-peers :
      (P : Peer → Type 0) (rules : List Rule) (peers : List RpcPeer)
      → All (λ d. P d.0) (rpc_seeds lower_other show parse rules peers)
      → All P (map (λ (p : RpcPeer). p.peer) peers)
  unfolding rpc_seeds
  rpc_seeds-peers P rules [] h = tt
  rpc_seeds-peers P rules (p ∷ peers) (first, others) =
      (first, rpc_seeds-peers P rules peers others)

  pub ask_node-peers :
      (P : Peer → Type 0) (rules : List Rule) (network : Text) (window : ℕ)
      (answers : Option Answers) {g : Gathered}
      → ask_node lower_other show parse rules network window answers ≡ ok g
      → All (λ d. P d.0) g.seeds
      → All P (asked_peers answers)
  unfolding ask_node
  ask_node-peers P rules network window none e h = tt
  ask_node-peers P rules network window (some a) {g} e h =
      let (i, answered, made) = bind_ok a.network_info _ e in
      let all = subst (λ (x : Gathered). All (λ d. P d.0) x.seeds) (sym (ok-injective made)) h in
      (all.0, rpc_seeds-peers P rules (or_no_peers a.peer_info) all.1)

  rpc_seeds-texts :
      (rules : List Rule) (peers : List RpcPeer)
      → texts_of lower_other show parse (rpc_seeds lower_other show parse rules peers)
        ≡ map show (map (λ (p : RpcPeer). p.peer) peers)
  unfolding rpc_seeds
  rpc_seeds-texts rules [] = refl
  rpc_seeds-texts rules (p ∷ peers) = ap (show p.peer ∷◌) (rpc_seeds-texts rules peers)

  pub ask_node-texts :
      (rules : List Rule) (network : Text) (window : ℕ) (answers : Option Answers) {g : Gathered}
      → ask_node lower_other show parse rules network window answers ≡ ok g
      → texts_of lower_other show parse g.seeds ≡ map show (asked_peers answers)
  unfolding ask_node
  ask_node-texts rules network window none e =
      ap (λ (x : Gathered). texts_of lower_other show parse x.seeds) (sym (ok-injective e))
  ask_node-texts rules network window (some a) e =
      let (i, answered, made) = bind_ok a.network_info _ e in
      ap (λ (x : Gathered). texts_of lower_other show parse x.seeds) (sym (ok-injective made))
      ∙ ap (show placeholder_peer ∷◌) (rpc_seeds-texts rules (or_no_peers a.peer_info))

  -- A known-good node is a seed, unless its text is there already or cannot be read.
  abbrev pub Reseeds : (Peer → Type 0) → ℕ → List Text → Text → Type 0
  Reseeds P port have a =
      (has_text a have ≡ true)
      ⊎ ((parse a port ≡ none) ⊎ ((p : Peer) × (parse a port ≡ some p) × P p))

  reseed-Reseeds :
      (P : Peer → Type 0) (port : ℕ) (have ks : List Text)
      → All (λ d. P d.0) (reseed lower_other show parse port have ks)
      → All (Reseeds P port have) ks
  unfolding reseed
  reseed-Reseeds P port have [] h = tt
  reseed-Reseeds P port have (a ∷ ks) h =
      let Holds = All (λ (d : Seed). P d.0) in
      let rest = reseed lower_other show parse port have ks in
      let all = reseed lower_other show parse port have (a ∷ ks) in
      elim (Bool-cases (has_text a have)) [
        | inl old ↦
            let e : all ≡ rest = rw (old, reseed) refl in
            (inl old, reseed-Reseeds P port have ks (subst Holds e h))
        | inr new ↦ elim (Option-cases (parse a port)) [
          | inl unread ↦
              let e : all ≡ rest = rw (new, unread, reseed) refl in
              (inr (inl unread), reseed-Reseeds P port have ks (subst Holds e h))
          | inr (p, read) ↦
              let e : all ≡ (p, 1, none) ∷ rest = rw (new, read, reseed) refl in
              let h' = subst Holds e h in
              (inr (inr (p, read, h'.0)), reseed-Reseeds P port have ks h'.1)
        ]
      ]

  pub known-Reseeds :
      (P : Peer → Type 0) (port : ℕ) (have : List Text) (known : Option (List Text))
      → All
          (λ (d : Seed). P d.0)
          (elim known [ none ↦ [] | some ks ↦ reseed lower_other show parse port have ks ])
      → All (Reseeds P port have) (known_of known)
  known-Reseeds P port have none h = tt
  known-Reseeds P port have (some ks) h = reseed-Reseeds P port have ks h
