-- ===== src/Geo.antt =====
-- Geolocation (src/geo.rs). An IP address is its text; the HTTP service is a parameter, and the
-- cache is passed on in place of its file.
use bip110_crawler.Common.{
  Bool, true, false, List, [], ◌∷◌, Option, none, some, if◌then◌else◌, length, Text, codes, list_eq,
  lookup, store, filter,
}
use bip110_crawler.Crawler.Tasks.{is_empty}
use bip110_crawler.Db.Nodes.{GeoInfo}
use bip110_crawler.Db.Stats.{chunks}

pub record ApiEntry (F : Type 0) : Type 0 where
  pub status : Text
  pub country : Text
  pub country_code : Text
  pub city : Text
  pub lat : Option F
  pub lon : Option F
  pub query : Text

abbrev pub GeoMap : Type 0 → Type 0
GeoMap F = List (Text × GeoInfo F)

module _ {F : Type 0} where
  unfoldable pub located : ApiEntry F → Option (GeoInfo F)
  located e =
      if list_eq e.status (codes "success")
      then elim e.lat [
        | none ↦ none
        | some lat ↦ elim e.lon [
          | none ↦ none
          | some lon ↦ some (record {
            lat = lat;
            lon = lon;
            country = e.country;
            country_code = e.country_code;
            city = e.city;
          })
        ]
      ]
      else none

  -- The answers to one batch, added to what is known.
  unfoldable pub add_entries : List (ApiEntry F) → GeoMap F → GeoMap F
  unfolding located
  add_entries [] out = out
  add_entries (e ∷ entries) out =
      add_entries entries (elim (located e) [ none ↦ out | some g ↦ store e.query g out ])

  unfoldable pub add_all : GeoMap F → GeoMap F → GeoMap F
  add_all [] cache = cache
  add_all ((k, v) ∷ fresh) cache = add_all fresh (store k v cache)

  -- The entries of the addresses that were asked for.
  unfoldable pub requested : List Text → GeoMap F → GeoMap F → GeoMap F
  requested [] cache out = out
  requested (ip ∷ ips) cache out =
      requested ips cache (elim (lookup ip cache) [ none ↦ out | some g ↦ store ip g out ])

  unfoldable pub is_missing : GeoMap F → Text → Bool
  is_missing cache ip = elim (lookup ip cache) [ none ↦ true | some g ↦ false ]

  module _ (geolocate_batch : List Text → Option (List (ApiEntry F))) where
    -- A batch that fails is left out.
    unfoldable pub locate_batches : List (List Text) → GeoMap F → GeoMap F
    unfolding add_entries add_all
    locate_batches [] out = out
    locate_batches (batch ∷ batches) out = elim (geolocate_batch batch) [
      | none ↦ locate_batches batches out
      | some entries ↦ locate_batches batches (add_all (add_entries entries []) out)
    ]

    unfoldable pub geolocate : List Text → GeoMap F
    unfolding locate_batches chunks
    geolocate ips = locate_batches (chunks (length ips) 100 ips) []

    -- What is found, and the cache afterwards.
    unfoldable pub geolocate_cached : List Text → GeoMap F → GeoMap F × GeoMap F
    unfolding geolocate requested is_missing
    geolocate_cached ips cache =
        let missing = filter (is_missing cache) ips in
        let cache' = if is_empty missing then cache else add_all (geolocate missing) cache in
        (requested ips cache' [], cache')
