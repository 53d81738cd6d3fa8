-- ===== src/Cycle/Seeds/Begins.antt =====
-- What a cycle that is not refused begins with: the seeds that its crawl has queued (src/main.rs: run_cycle,
-- and the start of `crawl` in src/crawler.rs).
pub mod Sources
use bip110_crawler.Common.{
  ℕ, ◌≡◌, refl, ap, Bool, true, false, List, [], ◌∷◌, ◌++◌, Option, none, some, map, All, All-split,
  Text, Bool-cases, inl, inr, arith, ok, err, ok-injective, no_seeds, if◌then◌else◌, subst, bind_ok,
  sym, ◌⊎◌, Option-cases, ◌∙◌,
}
use bip110_crawler.Node.{Rule}
use bip110_crawler.P2p.Peer.{IpAddr, Peer}
use bip110_crawler.Crawler.{Frontier}
use bip110_crawler.Rpc.Replies.{RpcPeer}
use bip110_crawler.Crawler.System.Start.{Seed, start}
use bip110_crawler.Crawler.System.Start.Planted.{Starts, start-Starts}
use bip110_crawler.Cycle.Seeds.{
  Answers, Gathered, placeholder_peer, or_no_peers, is_crawlable, has_real_seed, rpc_seeds,
  ask_node, reseed, texts_of, parse_seed, cli_seeds, gather_seeds, has_text,
}
use bip110_crawler.Cycle.Seeds.Begins.Sources.{
  asked_peers, known_of, has_real_seed-found, accepted, ask_node-peers, ask_node-texts, Reseeds,
  known-Reseeds,
}

module _ (lower_other : ℕ → Text) (show : Peer → Text) (parse : Text → ℕ → Option Peer) where
  module _ (resolve : Text → Option (List (IpAddr × ℕ))) (show_port : ℕ → Text) where
    cli_seeds-named :
        (P : Peer → Type 0) (port : ℕ) (args : List Text) {cli : List Seed}
        → cli_seeds lower_other show parse resolve show_port port args ≡ ok cli
        → All (λ d. P d.0) cli
        → All
            (λ a.
              (p : Peer) × (parse_seed lower_other show parse resolve show_port a port ≡ ok p)
              × P p)
            args
    unfolding cli_seeds
    cli_seeds-named P port [] e h = tt
    cli_seeds-named P port (a ∷ args) e h =
        let (p, parsed, rest) =
          bind_ok (parse_seed lower_other show parse resolve show_port a port) _ e in
        let (others, read, made) =
          bind_ok (cli_seeds lower_other show parse resolve show_port port args) _ rest in
        let all = subst (All (λ (d : Seed). P d.0)) (sym (ok-injective made)) h in
        ((p, parsed, all.0), cli_seeds-named P port args read all.1)

    -- What a cycle has queued when its crawl starts.
    pub record Begins (tor : Bool) (port : ℕ) (answers : Option Answers)
        (known : Option (List Text)) (args : List Text) (f : Frontier) : Type 0 where
      pub asked : All (Starts tor f) (asked_peers answers)
      pub stored :
          All
            (Reseeds lower_other show parse (Starts tor f) port (map show (asked_peers answers)))
            (known_of known)
      pub named :
          All
            (λ a.
              (p : Peer) × (parse_seed lower_other show parse resolve show_port a port ≡ ok p)
              × Starts tor f p)
            args
      pub real : (d : Seed) × (is_crawlable d ≡ true) × Starts tor f d.0

    gathered-Begins :
        (P : Peer → Type 0) (rules : List Rule) (network : Text) (window port : ℕ)
        (answers : Option Answers) (known : Option (List Text)) (args : List Text) {g : Gathered}
        → gather_seeds lower_other show parse resolve show_port rules network window port answers
            known args
          ≡ ok g
        → All (λ d. P d.0) g.seeds
        → All P (asked_peers answers)
          × All
              (Reseeds lower_other show parse P port (map show (asked_peers answers)))
              (known_of known)
          × All
              (λ a.
                (p : Peer) × (parse_seed lower_other show parse resolve show_port a port ≡ ok p)
                × P p)
              args
          × ((d : Seed) × (is_crawlable d ≡ true) × P d.0)
    unfolding gather_seeds
    gathered-Begins P rules network window port answers known args e h =
        let (g, told, rest) =
          bind_ok (ask_node lower_other show parse rules network window answers) _ e in
        let (cli, read, made) =
          bind_ok (cli_seeds lower_other show parse resolve show_port port args) _ rest in
        let added : List Seed = elim known [
          | none ↦ []
          | some ks ↦
              reseed lower_other show parse port (texts_of lower_other show parse g.seeds) ks
        ] in
        let (real, made_of) = accepted _ g (g.seeds ++ (added ++ cli)) made in
        let all = subst (All (λ (d : Seed). P d.0)) made_of h in
        let (own, others) = All-split _ g.seeds (added ++ cli) all in
        (
          ask_node-peers lower_other show parse P rules network window answers told own,
          subst
              (λ (have : List Text).
                All (Reseeds lower_other show parse P port have) (known_of known))
              (ask_node-texts lower_other show parse rules network window answers told)
              (known-Reseeds lower_other show parse P port (texts_of lower_other show parse g.seeds)
                known (All-split _ added cli others).0),
          cli_seeds-named P port args read (All-split _ added cli others).1,
          has_real_seed-found P (g.seeds ++ (added ++ cli)) real all,
        )

    -- A cycle that is not refused begins with its seeds on the stacks. When its crawl starts afresh, a task waits
    -- on the stack of its pool for our own node's placeholder and for each of its peers, if it was asked; for
    -- each known-good node that is none of these and can be parsed; for each seed of the command line, all of
    -- which are resolved; and for a seed that is no clearnet peer at port 0. Without a proxy, onion peers are
    -- excepted.
    pub gather_seeds-Begins :
        (rules : List Rule) (network : Text) (window port : ℕ) (answers : Option Answers)
        (known : Option (List Text)) (args : List Text) (tor : Bool) (threads tor_threads : ℕ)
        {g : Gathered}
        → gather_seeds lower_other show parse resolve show_port rules network window port answers
            known args
          ≡ ok g
        → Begins tor port answers known args
            (start (λ t. parse t port) tor none g.seeds threads tor_threads).shared.frontier
    gather_seeds-Begins rules network window port answers known args tor threads tor_threads {g} e =
        let queued = start-Starts (λ t. parse t port) tor g.seeds threads tor_threads in
        let (asked, stored, named, real) =
          gathered-Begins _ rules network window port answers known args e queued in
        record { asked = asked; stored = stored; named = named; real = real }
