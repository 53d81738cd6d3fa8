-- ===== src/History/Merge/Addresses.antt =====
-- A merge makes up no address: what holds of the address of every node holds behind it (src/history.rs).
use bip110_crawler.Common.{
  ◌≡◌, List, [], ◌∷◌, some, All, Text, Bool-cases, Option-cases, inl, inr, list_eq, subst,
}
use mathlib.Core.Option.{some-injective}
use bip110_crawler.Node.{NodeInfo}
use bip110_crawler.History.{
  History, get, put, refresh, first_meeting, merge_one, merge_each, has_addr, settle, merge,
  into_nodes,
}

module _ (P : Text → Type 0) where
  abbrev pub AllKnown : History → Type 0
  AllKnown = All (λ (e : Text × NodeInfo). P e.1.addr)

  abbrev pub AllMet : List NodeInfo → Type 0
  AllMet = All (λ (n : NodeInfo). P n.addr)

  get-known :
      (addr : Text) (nodes : History) (r : NodeInfo)
      → get addr nodes ≡ some r
      → AllKnown nodes
      → P r.addr
  unfolding get
  get-known addr [] r e h = absurd (cc e)
  get-known addr ((k, rec) ∷ nodes) r e h = elim (Bool-cases (list_eq k addr)) [
    | inl s ↦ subst (λ (n : NodeInfo). P n.addr) (some-injective _ _ (rw (s, get) at e)) h.0
    | inr o ↦ get-known addr nodes r (rw (o, get) at e) h.1
  ]

  put-known :
      (addr : Text) (rec : NodeInfo) (nodes : History)
      → P rec.addr
      → AllKnown nodes
      → AllKnown (put addr rec nodes)
  unfolding put
  put-known addr rec [] p h = (p, tt)
  put-known addr rec ((k, old) ∷ nodes) p h = elim (Bool-cases (list_eq k addr)) [
    | inl s ↦ rw (s, put) (p, h.1)
    | inr o ↦ rw (o, put) (h.0, put-known addr rec nodes p h.1)
  ]

  refresh-known :
      (now : Text) (existing cur : NodeInfo)
      → P existing.addr
      → P cur.addr
      → P (refresh now existing cur).addr
  unfolding refresh
  refresh-known now existing cur p q = elim (Bool-cases cur.handshaked) [
    | inl e ↦ rw (e, refresh) q
    | inr e ↦ rw (e, refresh) p
  ]

  first_meeting-known : (now : Text) (cur : NodeInfo) → P cur.addr → P (first_meeting now cur).addr
  unfolding first_meeting
  first_meeting-known now cur q = elim (Bool-cases cur.handshaked) [
    | inl e ↦ rw (e, first_meeting) q
    | inr e ↦ rw (e, first_meeting) q
  ]

  merge_one-known :
      (now : Text) (cur : NodeInfo) (nodes : History)
      → P cur.addr
      → AllKnown nodes
      → AllKnown (merge_one now cur nodes)
  unfolding merge_one
  merge_one-known now cur nodes q h = elim (Option-cases (get cur.addr nodes)) [
    | inl e ↦ rw (e, merge_one) (put-known cur.addr _ nodes (first_meeting-known now cur q) h)
    | inr (r, e) ↦
        rw (e, merge_one)
          (put-known cur.addr _ nodes (refresh-known now r cur (get-known cur.addr nodes r e h) q)
            h)
  ]

  merge_each-known :
      (now : Text) (current : List NodeInfo) (nodes : History)
      → AllMet current
      → AllKnown nodes
      → AllKnown (merge_each now current nodes)
  unfolding merge_each
  merge_each-known now [] nodes q h = h
  merge_each-known now (cur ∷ current) nodes q h =
      merge_each-known now current (merge_one now cur nodes) q.1
        (merge_one-known now cur nodes q.0 h)

  settle-known :
      (current : List NodeInfo) (nodes : History) → AllKnown nodes → AllKnown (settle current nodes)
  unfolding settle
  settle-known current [] h = tt
  settle-known current ((k, rec) ∷ nodes) h = elim (Bool-cases (has_addr k current)) [
    | inl e ↦ rw (e, settle) (h.0, settle-known current nodes h.1)
    | inr e ↦ rw (e, settle) (h.0, settle-known current nodes h.1)
  ]

  into_nodes-known : (nodes : History) → AllKnown nodes → AllMet (into_nodes nodes)
  unfolding into_nodes
  into_nodes-known [] h = tt
  into_nodes-known (e ∷ nodes) h = (h.0, into_nodes-known nodes h.1)

  pub merge-known :
      (nodes : History) (current : List NodeInfo) (now : Text)
      → AllKnown nodes
      → AllMet current
      → AllMet (into_nodes (merge nodes current now))
  unfolding merge
  merge-known nodes current now h q =
      into_nodes-known _ (settle-known current _ (merge_each-known now current nodes q h))
