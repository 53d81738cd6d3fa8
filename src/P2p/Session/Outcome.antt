-- ===== src/P2p/Session/Outcome.antt =====
-- What a probe that succeeds has read from the peer (src/p2p.rs).
use bip110_crawler.Common.{
  ℕ, zero, suc, ◌≤◌, ◌*◌, ◌≡◌, ◌⊎◌, inl, inr, refl, sym, ap, ◌∙◌, subst, Bool, false, ◌&&◌, List,
  [], ◌∷◌, none, some, if◌then◌else◌, length, list_eq, list_eq→eq, Any, first, later, Bool-cases,
  Option-cases, Result-cases, ok-injective, Text, codes, Bytes, Result, ok, err, pos, arith,
}
use mathlib.Core.Option.{some-injective}
use bip110_crawler.Crawler.Tasks.{is_empty}
use bip110_crawler.P2p.Peer.{IpAddr, Peer}
use bip110_crawler.P2p.Frame.{RawMessage, read_message}
use bip110_crawler.P2p.Version.{NetworkParams, build_version_payload, parse_version_payload}
use bip110_crawler.P2p.Session.{
  Handshake, is_some, on_message, handshake_loop, collect, connect_to, frame, probe_peer,
}
use bip110_crawler.P2p.Session.Collects.{
  collect_loop-headers, collect_loop-peers, collect_loop-fresh,
}
use bip110_crawler.Crawler.{PeerVersion, Reply}

-- The first `n` messages of a stream, up to the first that cannot be read.
abbrev pub messages : ℕ → Bytes → Bytes → List RawMessage
messages zero magic stream = []
messages (suc n) magic stream = elim (read_message stream magic) [
  | err _ ↦ []
  | ok (msg, rest) ↦ msg ∷ messages n magic rest
]

module _ (sha256 sha3_256 : Bytes → Bytes) (lossy : Bytes → Text) (net : NetworkParams) where
  -- A `version` message that parses to `v`.
  abbrev pub Tells : PeerVersion → RawMessage → Type 0
  Tells v msg = (msg.command ≡ codes "version") × (parse_version_payload lossy msg.payload ≡ ok v)

  unchanged :
      (msg : RawMessage) (h h' : Handshake)
      → list_eq msg.command (codes "version") ≡ false
      → on_message sha256 sha3_256 lossy net msg h ≡ ok h'
      → (h'.version ≡ h.version) × (h'.stream ≡ h.stream)
  unfolding on_message
  unchanged msg h h' n e = elim (Bool-cases (list_eq msg.command (codes "verack"))) [
    | inl y ↦
        let s = ok-injective (rw (n, on_message, y) at e) in
        (sym (ap (λ (k : Handshake). k.version) s), sym (ap (λ (k : Handshake). k.stream) s))
    | inr m ↦ elim (Bool-cases (list_eq msg.command (codes "ping"))) [
      | inl y ↦
          let s = ok-injective (rw (n, on_message, m, y) at e) in
          (sym (ap (λ (k : Handshake). k.version) s), sym (ap (λ (k : Handshake). k.stream) s))
      | inr k ↦
          let s = ok-injective (rw (n, on_message, m, k) at e) in
          (sym (ap (λ (k : Handshake). k.version) s), sym (ap (λ (k : Handshake). k.stream) s))
    ]
  ]

  on_message-version :
      (msg : RawMessage) (h h' : Handshake) (v : PeerVersion)
      → on_message sha256 sha3_256 lossy net msg h ≡ ok h'
      → h'.version ≡ some v
      → ((h.version ≡ some v) ⊎ Tells v msg) × (h'.stream ≡ h.stream)
  unfolding on_message
  on_message-version msg h h' v e q = elim (Bool-cases (list_eq msg.command (codes "version"))) [
    | inl y ↦ elim (Result-cases (parse_version_payload lossy msg.payload)) [
      | inl (x, p) ↦ absurd (cc (rw (y, on_message, p) at e))
      | inr (w, p) ↦
          let s = ok-injective (rw (y, on_message, p) at e) in
          (
            inr (
              list_eq→eq _ _ y,
              p ∙ ap ok (some-injective _ _ (ap (λ (k : Handshake). k.version) s ∙ q)),
            ),
            sym (ap (λ (k : Handshake). k.stream) s),
          )
    ]
    | inr n ↦ let (a, b) = unchanged msg h h' n e in (inl (sym a ∙ q), b)
  ]

  keeps_stream :
      (msg : RawMessage) (h k : Handshake)
      → on_message sha256 sha3_256 lossy net msg h ≡ ok k
      → k.stream ≡ h.stream
  unfolding on_message
  keeps_stream msg h k e = elim (Bool-cases (list_eq msg.command (codes "version"))) [
    | inl y ↦ elim (Result-cases (parse_version_payload lossy msg.payload)) [
      | inl (x, p) ↦ absurd (cc (rw (y, on_message, p) at e))
      | inr (w, p) ↦
          sym (ap (λ (k : Handshake). k.stream) (ok-injective (rw (y, on_message, p) at e)))
    ]
    | inr n ↦ (unchanged msg h k n e).1
  ]

  -- Every message of the handshake loop comes from the stream.
  handshake_loop-version :
      (left : ℕ) (h h' : Handshake) (v : PeerVersion)
      → handshake_loop sha256 sha3_256 lossy net left h ≡ ok h'
      → h'.version ≡ some v
      → (h.version ≡ some v) ⊎ Any (Tells v) (messages left net.magic h.stream)
  unfolding handshake_loop
  handshake_loop-version zero h h' v e q =
      inl (ap (λ (k : Handshake). k.version) (ok-injective e) ∙ q)
  handshake_loop-version (suc left) h h' v e q =
      elim (Result-cases (read_message h.stream net.magic)) [
        | inl (x, p) ↦ absurd (cc (rw (p, handshake_loop) at e))
        | inr ((msg, stream), p) ↦
            elim (Result-cases
              (on_message sha256 sha3_256 lossy net msg (record h { stream = stream }))) [
                | inl (x, r) ↦ absurd (cc (rw (p, handshake_loop, r) at e))
                | inr (k, r) ↦
                    let after : (if is_some k.version && k.got_verack
                          then ok k
                          else handshake_loop sha256 sha3_256 lossy net left k)
                        ≡ ok h' =
                      rw (p, handshake_loop, r) at e in
                    let rest : (k.version ≡ some v)
                        ⊎ Any (Tells v) (messages left net.magic k.stream) =
                      elim (Bool-cases (is_some k.version && k.got_verack)) [
                        | inl y ↦
                            inl
                              (ap (λ (k : Handshake). k.version) (ok-injective (rw y at after)) ∙ q)
                        | inr n ↦ handshake_loop-version left k h' v (rw n at after) q
                      ] in
                    rw (p, messages) (step h' v msg stream k left q rest r)
              ]
      ]
    where
      step :
          (h' : Handshake) (v : PeerVersion) (msg : RawMessage) (stream : Bytes) (k : Handshake)
          (left : ℕ)
          → h'.version ≡ some v
          → (k.version ≡ some v) ⊎ Any (Tells v) (messages left net.magic k.stream)
          → on_message sha256 sha3_256 lossy net msg (record h { stream = stream }) ≡ ok k
          → (h.version ≡ some v) ⊎ Any (Tells v) (msg ∷ messages left net.magic stream)
      step h' v msg stream k left q (inl s) r =
          elim ((on_message-version msg (record h { stream = stream }) k v r s).0) [
            | inl a ↦ inl a
            | inr t ↦ inr (first t)
          ]
      step h' v msg stream k left q (inr a) r = inr (
          later (
            subst (λ s. Any (Tells v) (messages left net.magic s))
              (keeps_stream msg (record h { stream = stream }) k r) a))

  -- What a probe's reply rests on: one of the first 20 messages behind the connection is a `version`
  -- message with the reply's version, latency aside; the reply has at most 2,000 headers, at most
  -- 1,000 peers a round, and where no headers were asked for, at most 1,999 peers.
  pub record Answers (peer : Peer) (tor : Bool) (connected : Result Bytes) (rounds : ℕ)
      (locator : List Bytes) (r : Reply) : Type 0 where
    pub stream : Bytes
    pub told : PeerVersion
    pub from_peer :
        (target : IpAddr × ℕ) × (connect_to sha256 sha3_256 lossy net peer tor connected
          ≡ ok (stream, target.0, target.1))
    pub version_message : Any (Tells told) (messages 20 net.magic stream)
    pub version : r.version ≡ record told { latency_ms = r.version.latency_ms }
    pub headers : length r.headers ≤ 2000
    pub peers : length r.discovered ≤ 1000 * rounds
    pub few_peers : (length r.discovered ≤ 1999) ⊎ (is_empty locator ≡ false)

  collect-Answers :
      (peer : Peer) (tor : Bool) (connected : Result Bytes) (rounds latency : ℕ)
      (locator : List Bytes) (h : Handshake) (v : PeerVersion) {stream : Bytes} {ip : IpAddr}
      {port : ℕ}
      → connect_to sha256 sha3_256 lossy net peer tor connected ≡ ok (stream, ip, port)
      → Any (Tells v) (messages 20 net.magic stream)
      → Answers peer tor connected rounds locator
          (collect sha256 sha3_256 lossy net rounds latency locator v h)
  unfolding collect is_empty
  collect-Answers peer tor connected rounds latency locator h v {stream} {ip} {port} e a = record {
    stream = stream;
    told = v;
    from_peer = ((ip, port), e);
    version_message = a;
    version = refl;
    headers = collect_loop-headers sha256 sha3_256 lossy net rounds _ (omega arith);
    peers = collect_loop-fresh sha256 sha3_256 lossy net rounds _ refl;
    few_peers = elim (Bool-cases (is_empty locator)) [
      | inl q ↦
          inl (collect_loop-peers sha256 sha3_256 lossy net rounds _ (rw q refl) (omega arith))
      | inr q ↦ inr q
    ];
  }

  -- A probe that succeeds has completed its dial and has been told the version that it reports, by
  -- one of the first 20 messages of the peer. Its reply has at most 2,000 headers, and at most 1,000 peers for each
  -- round of the collecting loop that the clock allowed; if no headers were asked for, at most 1,999 peers.
  pub probe_peer-Answers :
      (peer : Peer) (tor : Bool) (connected : Result Bytes) (now nonce latency rounds : ℕ)
      (locator : List Bytes) (r : Reply)
      → probe_peer sha256 sha3_256 lossy net peer tor connected now nonce latency rounds locator
        ≡ ok r
      → Answers peer tor connected rounds locator r
  unfolding probe_peer
  probe_peer-Answers peer tor connected now nonce latency rounds locator r e =
      elim (Result-cases (connect_to sha256 sha3_256 lossy net peer tor connected)) [
        | inl (x, p) ↦ absurd (cc (rw (p, probe_peer) at e))
        | inr ((stream, ip, port), p) ↦
            let h0 : Handshake = record {
              version = none;
              got_verack = false;
              sent =
                  frame sha256 sha3_256 lossy net (codes "version")
                    (build_version_payload now nonce ip port (pos 0));
              stream = stream;
            } in
            elim (Result-cases (handshake_loop sha256 sha3_256 lossy net 20 h0)) [
              | inl (x, q) ↦ absurd (cc (rw (p, probe_peer, q) at e))
              | inr (h, q) ↦ elim (Option-cases h.version) [
                | inl s ↦ absurd (cc (rw (p, probe_peer, q, s) at e))
                | inr (v, s) ↦
                    let told : Any (Tells v) (messages 20 net.magic stream) =
                      elim (handshake_loop-version 20 h0 h v q s) [
                        | inl z ↦ absurd (cc)
                        | inr a ↦ a
                      ] in
                    subst (Answers peer tor connected rounds locator)
                      (ok-injective (rw (p, probe_peer, q, s) at e))
                      (collect-Answers peer tor connected rounds latency locator h v p told)
              ]
            ]
      ]
