-- ===== src/Db/Table.antt =====
-- The node table of the API (src/db.rs: read_nodes, read_known_good).
pub mod Order
pub mod Pages
use bip110_crawler.Common.{
  ℕ, ◌-◌, ◌%◌, ◌^◌, Bool, true, false, not, ◌&&◌, ◌||◌, List, [], ◌∷◌, ◌++◌, Option, none, some, ℤ,
  if◌then◌else◌, leb, leb_ℤ, ◌==◌, length, take, drop, map, Text, codes, list_eq, text_leb, filter,
  sort_with,
}
use mathlib.Core.List.{reverse}
use bip110_crawler.Node.UserAgent.{assess_bip110}
use bip110_crawler.Crawler.Tasks.{is_empty}
use bip110_crawler.Db.Like.{like, like_option}
use bip110_crawler.Db.Nodes.{NodeRecord, to_i64, stance_str, map_some}
use bip110_crawler.Db.Report.{is_fresh, limit_rows}

pub record NodeRow : Type 0 where
  pub addr : Text
  pub implementation : Text
  pub version : Text
  pub protocol_version : ℤ
  pub depth : ℕ
  pub bip110 : Text
  pub online : Bool
  pub last_seen : Text
  pub city : Option Text
  pub country : Option Text
  pub latency_ms : Option ℕ

-- What a client asks for.
pub record NodeQuery : Type 0 where
  pub q : Text
  pub implementation : Text
  pub bip : Text
  pub sort : Text
  pub dir_desc : Bool
  pub limit : ℕ
  pub offset : ℕ

-- The order of an Option: none comes first.
unfoldable pub option_leb : {A : Type 0} → (A → A → Bool) → Option A → Option A → Bool
option_leb le none b = true
option_leb le (some a) none = false
option_leb le (some a) (some b) = le a b

unfoldable pub row_leb : Text → NodeRow → NodeRow → Bool
unfolding option_leb
row_leb sort a b =
    if list_eq sort (codes "implementation")
    then text_leb a.implementation b.implementation
    else if list_eq sort (codes "version")
    then text_leb a.version b.version
    else if list_eq sort (codes "protocol_version")
    then leb_ℤ a.protocol_version b.protocol_version
    else if list_eq sort (codes "bip110")
    then text_leb a.bip110 b.bip110
    else if list_eq sort (codes "location") || list_eq sort (codes "country")
    then option_leb text_leb a.country b.country
    else if list_eq sort (codes "latency")
    then option_leb leb a.latency_ms b.latency_ms
    else leb a.depth b.depth

unfoldable pub sorted_rows : NodeQuery → List NodeRow → List NodeRow
unfolding row_leb
sorted_rows query rows =
    let sorted = sort_with (row_leb query.sort) rows in
    if query.dir_desc then reverse sorted else sorted

module _ {F : Type 0} where
  -- The WHERE clause: fresh, and the two filters if they are given.
  unfoldable pub matches : ℕ → ℕ → NodeQuery → NodeRecord F → Bool
  matches now max_age_secs query r =
      let pattern = codes "%" ++ (query.q ++ codes "%") in
      is_fresh now max_age_secs r
      && (is_empty query.implementation || list_eq r.implementation query.implementation)
      && (is_empty query.q
          || like pattern r.addr
          || like pattern r.implementation
          || like pattern r.version
          || like_option pattern r.country
          || like_option pattern r.city)

  unfoldable pub node_row : (ℕ → Text) → NodeRecord F → NodeRow
  node_row lower_other r = record {
    addr = r.addr;
    implementation = r.implementation;
    version = r.version;
    protocol_version = r.protocol_version;
    depth = r.depth;
    bip110 = stance_str (assess_bip110 lower_other r.user_agent []);
    online = not (r.online == 0);
    last_seen = r.last_seen;
    city = r.city;
    country = r.country;
    latency_ms = map_some (λ v. v % 2 ^ 32) r.latency_ms;
  }

  -- The rows that match, before they are sorted.
  unfoldable pub matching_rows : (ℕ → Text) → ℕ → ℕ → NodeQuery → List (NodeRecord F) → List NodeRow
  unfolding matches node_row
  matching_rows lower_other now max_age_secs query rows =
      let found = map (node_row lower_other) (filter (matches now max_age_secs query) rows) in
      if is_empty query.bip
      then found
      else filter (λ (r : NodeRow). list_eq r.bip110 query.bip) found

  -- One page, and the number of rows on all pages.
  unfoldable pub read_nodes :
      (ℕ → Text) → ℕ → ℕ → NodeQuery → List (NodeRecord F) → List NodeRow × ℕ
  unfolding matching_rows sorted_rows
  read_nodes lower_other now max_age_secs query rows =
      let found = matching_rows lower_other now max_age_secs query rows in
      (take query.limit (drop query.offset (sorted_rows query found)), length found)

  -- ORDER BY last_seen DESC
  unfoldable pub seen_before : NodeRecord F → NodeRecord F → Bool
  seen_before a b = text_leb b.last_seen a.last_seen

  unfoldable pub read_known_good : ℕ → List (NodeRecord F) → List Text
  unfolding seen_before
  read_known_good limit rows =
      let good = filter (λ (r : NodeRecord F). (r.online == 1) && r.handshaked == 1) rows in
      map (λ (r : NodeRecord F). r.addr) (limit_rows (to_i64 limit) (sort_with seen_before good))
