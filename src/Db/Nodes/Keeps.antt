-- ===== src/Db/Nodes/Keeps.antt =====
-- What writes to the table of nodes keep of a row, and what a failed probe can do to it (src/db.rs).
use bip110_crawler.Common.{
  ◌≡◌, inl, inr, refl, sym, ◌∙◌, subst, Bool, true, false, ◌||◌, ◌&&◌, List, [], ◌∷◌, Option, none,
  some, if◌then◌else◌, ◌==◌, list_eq, list_eq→eq, list_eq-differ, list_eq_comm, Bool-cases, Text,
  arith,
}
use bip110_crawler.Node.{NodeInfo}
use bip110_crawler.Db.Nodes.{
  GeoInfo, NodeRecord, flag, bind, coalesce, is_blank, update_row, on_conflict, upsert, write_nodes,
  find_row,
}

abbrev pub is_some {ℓ} : {A : Type ℓ} → Option A → Bool
is_some none = false
is_some (some a) = true

-- A handshaked report of the address stands in the list.
unfoldable pub reported : Text → List NodeInfo → Bool
reported addr [] = false
reported addr (n ∷ nodes) = n.handshaked && list_eq n.addr addr || reported addr nodes

is_some-coalesce {ℓ} :
    {A : Type ℓ} (a b : Option A) → is_some b ≡ true → is_some (coalesce a b) ≡ true
unfolding coalesce
is_some-coalesce none b h = h
is_some-coalesce (some a) b h = refl

module _ {F : Type 0} where
  pub record Keeps (old new : NodeRecord F) : Type 0 where
    pub addr : new.addr ≡ old.addr
    pub first_seen : is_blank old.first_seen ≡ false → new.first_seen ≡ old.first_seen
    pub handshaked : old.handshaked ≡ 1 → new.handshaked ≡ 1
    pub lat : is_some old.lat ≡ true → is_some new.lat ≡ true
    pub lon : is_some old.lon ≡ true → is_some new.lon ≡ true
    pub latency_ms : is_some old.latency_ms ≡ true → is_some new.latency_ms ≡ true

  pub Keeps-refl : (r : NodeRecord F) → Keeps r r
  Keeps-refl r = record {
    addr = refl;
    first_seen = λ h. refl;
    handshaked = λ h. h;
    lat = λ h. h;
    lon = λ h. h;
    latency_ms = λ h. h;
  }

  Keeps-trans : {a b c : NodeRecord F} → Keeps a b → Keeps b c → Keeps a c
  Keeps-trans {a} {b} {c} h k = record {
    addr = k.addr ∙ h.addr;
    first_seen = λ e.
        k.first_seen (subst (λ t. is_blank t ≡ false) (sym (h.first_seen e)) e) ∙ h.first_seen e;
    handshaked = λ e. k.handshaked (h.handshaked e);
    lat = λ e. k.lat (h.lat e);
    lon = λ e. k.lon (h.lon e);
    latency_ms = λ e. k.latency_ms (h.latency_ms e);
  }

  on_conflict-Keeps : (e old : NodeRecord F) → Keeps old (on_conflict e old)
  unfolding on_conflict update_row
  on_conflict-Keeps e old = elim (Bool-cases ((e.handshaked == 1) || (old.handshaked == 0))) [
    | inl y ↦
        rw (y, on_conflict)
          (record {
            addr = refl;
            first_seen = λ h. rw h refl;
            handshaked = λ h. ground (arith, y, h);
            lat = is_some-coalesce e.lat old.lat;
            lon = is_some-coalesce e.lon old.lon;
            latency_ms = is_some-coalesce e.latency_ms old.latency_ms;
          })
    | inr n ↦ rw (n, on_conflict) (Keeps-refl old)
  ]

  -- What an INSERT makes of the row of its address.
  abbrev pub settled : NodeRecord F → Option (NodeRecord F) → NodeRecord F
  settled e none = e
  settled e (some old) = on_conflict e old

  addr-on_conflict : (e old : NodeRecord F) → (on_conflict e old).addr ≡ old.addr
  addr-on_conflict e old = (on_conflict-Keeps e old).addr

  pub find_row-upsert :
      (addr : Text) (e : NodeRecord F) (rows : List (NodeRecord F))
      → find_row addr (upsert e rows) ≡ (
          if list_eq e.addr addr
          then some (settled e (find_row e.addr rows))
          else find_row addr rows)
  unfolding find_row upsert
  find_row-upsert addr e [] = refl
  find_row-upsert addr e (r ∷ rows) = elim (Bool-cases (list_eq r.addr e.addr)) [
    | inl same ↦ elim (Bool-cases (list_eq e.addr addr)) [
      | inl here ↦
          let at : list_eq r.addr addr ≡ true = rw (list_eq→eq r.addr e.addr same) here in
          rw (same, here, addr-on_conflict e r, at) refl
      | inr there ↦
          let at : list_eq r.addr addr ≡ false = rw (list_eq→eq r.addr e.addr same) there in
          rw (same, there, addr-on_conflict e r, at) refl
    ]
    | inr other ↦ elim (Bool-cases (list_eq r.addr addr)) [
      | inl here ↦
          let away : list_eq e.addr addr ≡ false =
            list_eq_comm e.addr addr ∙ list_eq-differ r.addr addr e.addr here other in
          rw (other, here, away) refl
      | inr there ↦ rw (other, there, find_row-upsert addr e rows) refl
    ]
  ]

  -- A report without a handshake leaves a row with one alone.
  on_conflict-failed :
      (e old : NodeRecord F) → e.handshaked ≡ 0 → old.handshaked ≡ 1 → on_conflict e old ≡ old
  unfolding on_conflict
  on_conflict-failed e old f h = rw (f, h) refl

  module _ (generated_at : Text) (geo : List (Text × GeoInfo F)) where
    KeepsOne : Text → NodeInfo → NodeRecord F → Option (NodeRecord F) → Type 0
    KeepsOne addr n old found =
        (mid : NodeRecord F) × (found ≡ some mid)
        × Keeps old mid
        × (old.handshaked ≡ 1 → (n.handshaked && list_eq n.addr addr) ≡ false → mid ≡ old)

    upsert-Keeps :
        (addr : Text) (n : NodeInfo) (rows : List (NodeRecord F)) (old : NodeRecord F)
        → find_row addr rows ≡ some old
        → KeepsOne addr n old (find_row addr (upsert (bind generated_at geo n) rows))
    unfolding bind flag KeepsOne
    upsert-Keeps addr n rows old q =
        let e = bind generated_at geo n in
        elim (Bool-cases (list_eq n.addr addr)) [
          | inl here ↦
              let at : find_row n.addr rows ≡ some old = rw (list_eq→eq n.addr addr here) q in
              rw (find_row-upsert addr e rows, here, at)
                (
                  on_conflict e old,
                  refl,
                  on_conflict-Keeps e old,
                  λ h r. on_conflict-failed e old (ground (arith, r)) h,
                )
          | inr there ↦
              rw (find_row-upsert addr e rows, there) (old, q, Keeps-refl old, λ h r. refl)
        ]

    -- Whatever is written, a row stays, its first sighting and its handshake with it; coordinates and
    -- a latency that are known stay known; and a row that was handshaked once changes only by a report of
    -- its address that completed a handshake.
    pub write_nodes-Keeps :
        (addr : Text) (nodes : List NodeInfo) (rows : List (NodeRecord F)) (old : NodeRecord F)
        → find_row addr rows ≡ some old
        → (new : NodeRecord F) × (find_row addr (write_nodes generated_at geo nodes rows)
            ≡ some new)
          × Keeps old new
          × (old.handshaked ≡ 1 → reported addr nodes ≡ false → new ≡ old)
    unfolding write_nodes reported KeepsOne
    write_nodes-Keeps addr [] rows old q = (old, q, Keeps-refl old, λ h r. refl)
    write_nodes-Keeps addr (n ∷ nodes) rows old q =
        let (mid, qm, km, sm) = upsert-Keeps addr n rows old q in
        let (new, qn, kn, sn) =
          write_nodes-Keeps addr nodes (upsert (bind generated_at geo n) rows) mid qm in
        (
          new,
          qn,
          Keeps-trans km kn,
          λ h r. sn (km.handshaked h) (ground (arith, r)) ∙ sm h (ground (arith, r)),
        )
