-- ===== src/History.antt =====
-- src/history.rs: the accumulating store of nodes. The `BTreeMap` is a list of entries, of which
-- the first with a key counts.
pub mod Merge
use bip110_crawler.Common.{
  ℕ, ◌+◌, Bool, true, false, ◌||◌, List, [], ◌∷◌, Option, none, some, if◌then◌else◌, list_eq, Text,
}
use bip110_crawler.Node.{NodeInfo}
use bip110_crawler.Crawler.Tasks.{is_empty}

abbrev pub History : Type 0
History = List (Text × NodeInfo)

-- `nodes.get`
unfoldable pub get : Text → History → Option NodeInfo
get addr [] = none
get addr ((key, rec) ∷ nodes) = if list_eq key addr then some rec else get addr nodes

-- `nodes.insert`, and a write through `get_mut`.
unfoldable pub put : Text → NodeInfo → History → History
put addr rec [] = (addr, rec) ∷ []
put addr rec ((key, old) ∷ nodes) =
    if list_eq key addr then (key, rec) ∷ nodes else (key, old) ∷ put addr rec nodes

-- A node that is known already.
unfoldable pub refresh : Text → NodeInfo → NodeInfo → NodeInfo
refresh now existing cur =
    if cur.handshaked
    then record cur {
      first_seen = if is_empty existing.first_seen then now else existing.first_seen;
      last_seen = now;
      times_seen = existing.times_seen + 1;
      online = true;
    }
    else record existing { online = false }

-- A node that is met for the first time.
unfoldable pub first_meeting : Text → NodeInfo → NodeInfo
first_meeting now cur =
    if cur.handshaked
    then record cur { first_seen = now; last_seen = now; times_seen = 1; online = true }
    else record cur { first_seen = now; times_seen = 0; online = false }

unfoldable pub merge_one : Text → NodeInfo → History → History
unfolding refresh first_meeting
merge_one now cur nodes = elim (get cur.addr nodes) [
  | some existing ↦ put cur.addr (refresh now existing cur) nodes
  | none ↦ put cur.addr (first_meeting now cur) nodes
]

unfoldable pub merge_each : Text → List NodeInfo → History → History
unfolding merge_one
merge_each now [] nodes = nodes
merge_each now (cur ∷ current) nodes = merge_each now current (merge_one now cur nodes)

-- `current_addrs.contains`
unfoldable pub has_addr : Text → List NodeInfo → Bool
has_addr addr [] = false
has_addr addr (n ∷ current) = list_eq n.addr addr || has_addr addr current

-- Everything that was not met is offline.
unfoldable pub settle : List NodeInfo → History → History
unfolding has_addr
settle current [] = []
settle current ((addr, rec) ∷ nodes) =
    (addr, if has_addr addr current then rec else record rec { online = false })
    ∷ settle current nodes

unfoldable pub merge : History → List NodeInfo → Text → History
unfolding merge_each settle
merge nodes current now = settle current (merge_each now current nodes)

unfoldable pub into_nodes : History → List NodeInfo
into_nodes [] = []
into_nodes ((addr, rec) ∷ nodes) = rec ∷ into_nodes nodes

unfoldable pub online_count : History → ℕ
online_count [] = 0
online_count ((addr, rec) ∷ nodes) = (if rec.online then 1 else 0) + online_count nodes
