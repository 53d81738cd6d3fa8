-- ===== src/Db/Nodes.antt =====
-- The table of nodes: `INSERT … ON CONFLICT(addr) DO UPDATE` of write_snapshot, and a row read back
-- as a node (row_to_node). The type of coordinates, f64, is a parameter. An INTEGER column to which
-- only 0 and 1 are written is a number (src/db.rs).
pub mod Keeps
use bip110_crawler.Common.{
  ℕ, ◌-◌, ◌%◌, ◌^◌, Bool, true, false, ◌&&◌, ◌||◌, not, List, [], ◌∷◌, Option, none, some, ℤ, pos,
  negsuc, if◌then◌else◌, ltb, ◌==◌, list_eq, Text, codes, lookup,
}
use bip110_crawler.Node.{NodeInfo, Stance, enforcing, not_enforcing, unknown}
use bip110_crawler.Node.UserAgent.{assess_bip110}
use bip110_crawler.Crawler.Tasks.{is_empty}

pub record GeoInfo (F : Type 0) : Type 0 where
  pub lat : F
  pub lon : F
  pub country : Text
  pub country_code : Text
  pub city : Text

pub record NodeRecord (F : Type 0) : Type 0 where
  pub addr : Text
  pub depth : ℕ
  pub protocol_version : ℤ
  pub user_agent : Text
  pub services : ℤ
  pub start_height : ℤ
  pub handshaked : ℕ
  pub implementation : Text
  pub version : Text
  pub bip110 : Text
  pub first_seen : Option Text
  pub last_seen : Text
  pub times_seen : ℕ
  pub online : ℕ
  pub lat : Option F
  pub lon : Option F
  pub country : Option Text
  pub country_code : Option Text
  pub city : Option Text
  pub latency_ms : Option ℕ

-- `bool as i64`, `u64 as i64` and `i64 as u64`.
unfoldable pub flag : Bool → ℕ
flag b = if b then 1 else 0

unfoldable pub to_i64 : ℕ → ℤ
to_i64 n = if ltb n (2 ^ 63) then pos n else negsuc (2 ^ 64 - 1 - n)

unfoldable pub from_i64 : ℤ → ℕ
from_i64 (pos n) = n % 2 ^ 64
from_i64 (negsuc n) = 2 ^ 64 - 1 - n % 2 ^ 64

-- `COALESCE(a, b)`
unfoldable pub coalesce {ℓ} : {A : Type ℓ} → Option A → Option A → Option A
coalesce none b = b
coalesce (some a) b = some a

abbrev pub map_some {ℓ κ} : {A : Type ℓ} {B : Type κ} → (A → B) → Option A → Option B
map_some f none = none
map_some f (some a) = some (f a)

-- `first_seen IS NULL OR first_seen = ''`
unfoldable pub is_blank : Option Text → Bool
is_blank none = true
is_blank (some t) = is_empty t

abbrev pub or_empty : Option Text → Text
or_empty none = []
or_empty (some t) = t

unfoldable pub stance_str : Stance → Text
stance_str enforcing = codes "enforcing"
stance_str not_enforcing = codes "not_enforcing"
stance_str unknown = codes "unknown"

module _ {F : Type 0} where
  -- The parameters of one INSERT.
  unfoldable pub bind : Text → List (Text × GeoInfo F) → NodeInfo → NodeRecord F
  unfolding flag to_i64 stance_str
  bind generated_at geo n =
      let g = lookup n.addr geo in
      record {
        addr = n.addr;
        depth = n.depth;
        protocol_version = n.protocol_version;
        user_agent = n.user_agent;
        services = to_i64 n.services;
        start_height = n.start_height;
        handshaked = flag n.handshaked;
        implementation = n.implementation;
        version = n.version;
        bip110 = stance_str n.bip110;
        first_seen = some n.first_seen;
        last_seen = if is_empty n.last_seen && n.online then generated_at else n.last_seen;
        times_seen = n.times_seen;
        online = flag n.online;
        lat = map_some (λ (x : GeoInfo F). x.lat) g;
        lon = map_some (λ (x : GeoInfo F). x.lon) g;
        country = map_some (λ (x : GeoInfo F). x.country) g;
        country_code = map_some (λ (x : GeoInfo F). x.country_code) g;
        city = map_some (λ (x : GeoInfo F). x.city) g;
        latency_ms = n.latency_ms;
      }

  -- DO UPDATE SET …
  unfoldable pub update_row : NodeRecord F → NodeRecord F → NodeRecord F
  unfolding coalesce is_blank
  update_row excluded old = record excluded {
    addr = old.addr;
    first_seen = if is_blank old.first_seen then excluded.first_seen else old.first_seen;
    lat = coalesce excluded.lat old.lat;
    lon = coalesce excluded.lon old.lon;
    country = coalesce excluded.country old.country;
    country_code = coalesce excluded.country_code old.country_code;
    city = coalesce excluded.city old.city;
    latency_ms = coalesce excluded.latency_ms old.latency_ms;
  }

  -- … WHERE excluded.handshaked=1 OR nodes.handshaked=0
  unfoldable pub on_conflict : NodeRecord F → NodeRecord F → NodeRecord F
  unfolding update_row
  on_conflict excluded old =
      if (excluded.handshaked == 1) || (old.handshaked == 0) then update_row excluded old else old

  unfoldable pub upsert : NodeRecord F → List (NodeRecord F) → List (NodeRecord F)
  unfolding on_conflict
  upsert excluded [] = excluded ∷ []
  upsert excluded (r ∷ rows) =
      if list_eq r.addr excluded.addr
      then on_conflict excluded r ∷ rows
      else r ∷ upsert excluded rows

  unfoldable pub write_nodes :
      Text → List (Text × GeoInfo F) → List NodeInfo → List (NodeRecord F) → List (NodeRecord F)
  unfolding bind upsert
  write_nodes generated_at geo [] rows = rows
  write_nodes generated_at geo (n ∷ nodes) rows =
      write_nodes generated_at geo nodes (upsert (bind generated_at geo n) rows)

  -- The row of an address.
  unfoldable pub find_row : Text → List (NodeRecord F) → Option (NodeRecord F)
  find_row addr [] = none
  find_row addr (r ∷ rows) = if list_eq r.addr addr then some r else find_row addr rows

  unfoldable pub row_geo : NodeRecord F → Option (GeoInfo F)
  row_geo r = elim r.lat [
    | none ↦ none
    | some lat ↦ elim r.lon [
      | none ↦ none
      | some lon ↦ some (record {
        lat = lat;
        lon = lon;
        country = or_empty r.country;
        country_code = or_empty r.country_code;
        city = or_empty r.city;
      })
    ]
  ]

  -- A NULL first_seen is an error of `get`, in place of a node.
  unfoldable pub row_to_node : (ℕ → Text) → NodeRecord F → Option (NodeInfo × Option (GeoInfo F))
  unfolding from_i64 row_geo
  row_to_node lower_other r = elim r.first_seen [
    | none ↦ none
    | some first ↦ some (
      record {
        addr = r.addr;
        depth = r.depth;
        protocol_version = r.protocol_version;
        user_agent = r.user_agent;
        services = from_i64 r.services;
        start_height = r.start_height;
        chain_hash = [];
        handshaked = not (r.handshaked == 0);
        implementation = r.implementation;
        version = r.version;
        bip110 = assess_bip110 lower_other r.user_agent [];
        first_seen = first;
        last_seen = r.last_seen;
        times_seen = r.times_seen;
        online = not (r.online == 0);
        latency_ms = map_some (λ v. v % 2 ^ 32) r.latency_ms;
      },
      row_geo r,
    )
  ]
