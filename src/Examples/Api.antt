-- ===== src/Examples/Api.antt =====
-- Requests at concrete inputs (src/serve.rs: handle).
use bip110_crawler.Common.{
  ℕ, ◌≤◌, ◌≡◌, ◌⊎◌, refl, Bool, true, false, List, [], ◌∷◌, ◌++◌, Option, none, some, length, codes,
  ok, err, Bytes, no_result,
}
use bip110_crawler.Db.Blocks.{BlockRow}
use bip110_crawler.Db.Snapshot.{Db}
use bip110_crawler.Db.Table.{NodeRow}
use bip110_crawler.Serve.Static.{json_header}
use bip110_crawler.Serve.Routes.{BlocksReply, Site, api_answer, respond, handle}
use bip110_crawler.Serve.Static.Status.{has_path}
use bip110_crawler.Serve.Routes.Known.{
  api_paths, path_of, answered, Follows, query_of, handle-answered,
}
use bip110_crawler.Serve.Routes.Bounded.{handle-Bounded}

-- A site without QR codes, whose statistics cannot be printed.
abbrev site : Site ℕ
site = record {
  Json = ℕ;
  page = codes "<html>";
  support = record { html = codes "<html>"; btc_qr = none; ln_qr = none };
  lower_other = λ c. [];
  from_utf8_lossy = λ s. s;
  own_of_json = λ t. none;
  signalling_of_json = λ t. none;
  split_of_json = λ t. none;
  value_of_json = λ t. none;
  mempool_of_json = λ t. none;
  report_json = λ r. ok (codes "{}");
  blocks_json = λ r. ok (codes "{}");
  blocks_page_json = λ r. ok (codes "{}");
  ticker_json = λ r. ok (codes "{}");
  chains_json = λ r. ok (codes "{}");
  mempool_json = λ r. ok (codes "{}");
  stats_json = λ r. err no_result;
  nodes_json = λ r. ok (codes "{}");
}

abbrev empty_db : Db ℕ
empty_db = record { nodes = []; edges = []; meta = []; history = []; blocks = [] }

-- `/support/bitcoin.png?a`, which is not there.
abbrev qr_url : Bytes
qr_url = codes "/support/bitcoin.png?a"

-- The statistics, which fail.
abbrev stats_url : Bytes
stats_url = codes "/api/stats?a=b"

handle-answered_example :
    let response = handle site 1782000000 86400 empty_db stats_url in
    let path = path_of stats_url in
    ((answered site.support path ≡ false) × (response.status ≡ 404))
    ⊎ ((answered site.support path ≡ true)
        × (has_path path api_paths ≡ false)
        × (response.status ≡ 200))
    ⊎ ((has_path path api_paths ≡ true)
        × Follows site 1782000000 86400 empty_db response (
            api_answer site 1782000000 86400 empty_db path
              (query_of site 1782000000 86400 empty_db stats_url)))
handle-answered_example = handle-answered site 1782000000 86400 empty_db stats_url

qr_missing : (handle site 1782000000 86400 empty_db qr_url).status ≡ 404
unfolding handle bip110_crawler.Common.list_eq bip110_crawler.Serve.Query.split_once
qr_missing = refl

-- The statistics fail.
stats_fail : (handle site 1782000000 86400 empty_db (codes "/api/stats")).status ≡ 500
unfolding handle bip110_crawler.Common.list_eq bip110_crawler.Serve.Query.split_once
stats_fail = refl

handle-Bounded_example :
    let q = codes "limit=999999" in
    ((rows : List NodeRow) × (total : ℕ) × (length rows ≤ 1000)
      × (handle site 1782000000 86400 empty_db (codes "/api/nodes?" ++ q)
          ≡ respond site 1782000000 86400 empty_db
              (some (site.nodes_json (total, rows), json_header))))
    × ((reply : BlocksReply) × (length reply.blocks ≤ 500)
        × (length reply.signalling ≤ 200)
        × (handle site 1782000000 86400 empty_db (codes "/api/blocks?" ++ q)
            ≡ respond site 1782000000 86400 empty_db (some (site.blocks_json reply, json_header))))
    × ((rows : List BlockRow) × (more : Bool) × (length rows ≤ 200)
        × (handle site 1782000000 86400 empty_db (codes "/api/blocks/page?" ++ q)
            ≡ respond site 1782000000 86400 empty_db
                (some (site.blocks_page_json (rows, more), json_header))))
handle-Bounded_example = handle-Bounded site 1782000000 86400 empty_db (codes "limit=999999")
