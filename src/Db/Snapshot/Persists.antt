-- ===== src/Db/Snapshot/Persists.antt =====
-- What the store knows survives every snapshot (write_snapshot) (src/db.rs).
use bip110_crawler.Common.{
  ◌⊎◌, ◌==◌, ==_iff, Bool-cases, ℕ, ◌≡◌, refl, inl, inr, true, false, List, [], ◌∷◌, ◌++◌, Option,
  some, Text, Bool-cases, Option-cases, arith,
}
use bip110_crawler.Node.{NodeInfo, Edge}
use bip110_crawler.Db.Nodes.{GeoInfo, NodeRecord, find_row}
use bip110_crawler.Db.Nodes.Keeps.{Keeps, reported, write_nodes-Keeps, Keeps-refl}
use bip110_crawler.Db.Snapshot.{
  Db, has_edge, write_edges, commit, as_json, write_rows, write_snapshot,
}

has_edge-append :
    (e : Edge) (xs ys : List Edge) → has_edge e xs ≡ true → has_edge e (xs ++ ys) ≡ true
unfolding has_edge
has_edge-append e [] ys h = absurd (cc)
has_edge-append e (x ∷ xs) ys h = ground (arith, h, has_edge-append e xs ys)

has_edge-write_edges :
    (e : Edge) (edges rows : List Edge)
    → has_edge e rows ≡ true
    → has_edge e (write_edges edges rows) ≡ true
unfolding write_edges
has_edge-write_edges e [] rows h = h
has_edge-write_edges e (f ∷ edges) rows h = elim (Bool-cases (has_edge f rows)) [
  | inl y ↦ rw y (has_edge-write_edges e edges rows h)
  | inr n ↦ rw n (has_edge-write_edges e edges (rows ++ f ∷ []) (has_edge-append e rows (f ∷ []) h))
]

module _ {F : Type 0} (now : ℕ) (generated_at network : Text) (own_node signalling : Option Text)
    (nodes : List NodeInfo) (edges : List Edge) (geo : List (Text × GeoInfo F)) (db : Db F) where
  -- The store after the transaction, whether it was committed or rolled back.
  abbrev pub after : Db F
  after = commit db (write_snapshot now generated_at network own_node signalling nodes edges geo db)

  write_snapshot-kept :
      (addr : Text) (old : NodeRecord F)
      → find_row addr db.nodes ≡ some old
      → ((new : NodeRecord F) × (find_row addr after.nodes ≡ some new)
          × Keeps old new
          × (old.handshaked ≡ 1 → reported addr nodes ≡ false → new ≡ old))
        × ((e : Edge) → has_edge e db.edges ≡ true → has_edge e after.edges ≡ true)
  unfolding write_snapshot commit as_json write_rows
  write_snapshot-kept addr old q = elim (Option-cases own_node) [
    | inl failed ↦ rw failed ((old, q, Keeps-refl old, λ h r. refl), λ e h. h)
    | inr (own, o) ↦ elim (Option-cases signalling) [
      | inl failed ↦ rw (o, failed) ((old, q, Keeps-refl old, λ h r. refl), λ e h. h)
      | inr (sig, s) ↦
          rw (o, s)
            (
              write_nodes-Keeps generated_at geo addr nodes db.nodes old q,
              λ e h. has_edge-write_edges e edges db.edges h,
            )
    ]
  ]

  -- Whatever the crawler writes, and whether the transaction is committed or fails: every stored
  -- node keeps its row, in which a first sighting, a handshake, coordinates and a latency that are known
  -- stay known; a node that was handshaked once changes only if the snapshot has a completed handshake
  -- with it; and every stored edge stays.
  pub write_snapshot-Keeps :
      (addr : Text) (old : NodeRecord F)
      → find_row addr db.nodes ≡ some old
      → ((new : NodeRecord F) × (find_row addr after.nodes ≡ some new)
          × Keeps old new
          × (((old.handshaked == 1) ≡ false) ⊎ ((reported addr nodes ≡ true) ⊎ (new ≡ old))))
        × ((e : Edge) → has_edge e db.edges ≡ true → has_edge e after.edges ≡ true)
  write_snapshot-Keeps addr old q =
      let ((new, there, keeps, same), edges_kept) = write_snapshot-kept addr old q in
      (
        (
          new,
          there,
          keeps,
          elim (Bool-cases (old.handshaked == 1)) [
            | inr failed ↦ inl failed
            | inl shook ↦ elim (Bool-cases (reported addr nodes)) [
              | inl again ↦ inr (inl again)
              | inr e ↦ inr (inr (same ((==_iff _ _).0 shook) e))
            ]
          ],
        ),
        edges_kept,
      )
