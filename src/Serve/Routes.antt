-- ===== src/Serve/Routes.antt =====
-- The answer to a request (src/serve.rs: handle). The JSON texts of serde_json are parameters.
pub mod Known
pub mod Bounded
use bip110_crawler.Common.{
  parse_usize, parse_i64, ℕ, ◌+◌, Bool, true, false, ◌||◌, List, [], ◌∷◌, ◌++◌, Option, none, some,
  ℤ, if◌then◌else◌, min, Text, Bytes, codes, list_eq, lookup, Result, ok, err, null_value,
}
use bip110_crawler.Node.ChainSplit.{ChainSplit}
use bip110_crawler.Rpc.Signalling.{SignalStats}
use bip110_crawler.Rpc.Replies.Fees.{MempoolSnapshot}
use bip110_crawler.Db.Blocks.{
  BlockRow, PeriodStats, read_blocks, read_blocks_page, read_period_signalling_blocks,
  read_period_block_stats,
}
use bip110_crawler.Db.Snapshot.{Db, meta_get}
use bip110_crawler.Db.Report.{
  OwnNode, ReportData, read_report, read_signalling, read_chain_split, or_else, and_then,
}
use bip110_crawler.Db.Stats.{Ticker, Stats, read_ticker, read_stats}
use bip110_crawler.Db.Table.{NodeRow, NodeQuery, read_nodes}
use bip110_crawler.Serve.Static.{
  Body, favicon, og_image, rendered, text, image, Page, Response, Support, html_header, json_header,
  not_found, page_of, qr_answer, static_answer,
}
use bip110_crawler.Serve.Query.{split_once, parse_query}

-- What answers `/api/blocks`.
pub record BlocksReply : Type 0 where
  pub blocks : List BlockRow
  pub start : ℕ
  pub tip : ℕ
  pub signalling : List BlockRow
  pub stats : Option SignalStats
  pub pstats : Option (ℕ × PeriodStats × ℤ)

abbrev pub retarget_period : ℕ
retarget_period = 2016

-- The parsers and the printers of the stored JSON, and the rest of what a request reads.
pub record Site (F : Type 0) : Type 1 where
  pub Json : Type 0
  pub page : Text
  pub support : Support
  pub lower_other : ℕ → Text
  pub from_utf8_lossy : Bytes → Text
  pub own_of_json : Text → Option OwnNode
  pub signalling_of_json : Text → Option (Option SignalStats)
  pub split_of_json : Text → Option ChainSplit
  pub value_of_json : Text → Option Json
  pub mempool_of_json : Text → Option (MempoolSnapshot F)
  pub report_json : ReportData F → Result Text
  pub blocks_json : BlocksReply → Result Text
  pub blocks_page_json : List BlockRow × Bool → Result Text
  pub ticker_json : Ticker → Result Text
  pub chains_json : Option Json × Option ChainSplit → Result Text
  pub mempool_json : Option (MempoolSnapshot F) → Result Text
  pub stats_json : Stats → Result Text
  pub nodes_json : ℕ × List NodeRow → Result Text

-- A number of the query, and what stands for it.
abbrev pub number_or : ℕ → Text → List (Text × Text) → ℕ
number_or d key query = or_else d (and_then parse_usize (lookup key query))

abbrev pub text_or : Text → Text → List (Text × Text) → Text
text_or d key query = or_else d (lookup key query)

abbrev is_desc : Option Text → Bool
is_desc none = false
is_desc (some s) = list_eq s (codes "desc")

unfoldable pub node_query : List (Text × Text) → NodeQuery
node_query query = record {
  q = text_or [] (codes "q") query;
  implementation = text_or [] (codes "impl") query;
  bip = text_or [] (codes "bip") query;
  sort = text_or (codes "depth") (codes "sort") query;
  dir_desc = is_desc (lookup (codes "dir") query);
  limit = min (number_or 100 (codes "limit") query) 1000;
  offset = number_or 0 (codes "offset") query;
}

module _ {F : Type 0} (site : Site F) (now max_age_secs : ℕ) (db : Db F) where
  unfoldable pub report_body : ℕ → Result Text
  report_body max =
      elim (read_report site.lower_other site.own_of_json site.signalling_of_json site.split_of_json
        now max max_age_secs db) [ none ↦ err null_value | some r ↦ site.report_json r ]

  unfoldable pub blocks_body : ℕ → Result Text
  blocks_body limit =
      let (start, tip, sig) = read_period_signalling_blocks retarget_period 200 db.blocks in
      site.blocks_json (record {
        blocks = read_blocks limit db.blocks;
        start = start;
        tip = tip;
        signalling = sig;
        stats =
            read_signalling site.lower_other site.own_of_json site.signalling_of_json
              site.split_of_json db;
        pstats = read_period_block_stats retarget_period db.blocks;
      })

  unfoldable pub nodes_body : List (Text × Text) → Result Text
  unfolding node_query
  nodes_body query =
      let (rows, total) =
        read_nodes site.lower_other now max_age_secs (node_query query) db.nodes in
      site.nodes_json (total, rows)

  -- The answers out of the database, with their header.
  unfoldable pub api_answer : Text → List (Text × Text) → Option (Result Text × Option Text)
  unfolding report_body blocks_body nodes_body
  api_answer path query =
      if list_eq path (codes "/") || list_eq path (codes "/index.html")
      then some (ok site.page, html_header)
      else if list_eq path (codes "/api/report")
      then some (report_body (number_or 3000 (codes "max") query), json_header)
      else if list_eq path (codes "/api/blocks")
      then some (blocks_body (min (number_or 50 (codes "limit") query) 500), json_header)
      else if list_eq path (codes "/api/blocks/page")
      then some (
        site.blocks_page_json (
            read_blocks_page (and_then parse_i64 (lookup (codes "before") query))
              (min (number_or 40 (codes "limit") query) 200) db.blocks),
        json_header,
      )
      else if list_eq path (codes "/api/ticker")
      then some (
        site.ticker_json (
            read_ticker
              (read_signalling site.lower_other site.own_of_json site.signalling_of_json
                site.split_of_json)
              now max_age_secs db),
        json_header,
      )
      else if list_eq path (codes "/api/chains")
      then some (
        site.chains_json (
          and_then site.value_of_json (meta_get (codes "chain_clusters") db),
          read_chain_split site.lower_other site.own_of_json site.signalling_of_json
              site.split_of_json db,
        ),
        json_header,
      )
      else if list_eq path (codes "/api/mempool")
      then some (
        site.mempool_json (and_then site.mempool_of_json (meta_get (codes "mempool") db)),
        json_header,
      )
      else if list_eq path (codes "/api/stats")
      then some (site.stats_json (read_stats now max_age_secs db), json_header)
      else if list_eq path (codes "/api/nodes")
      then some (nodes_body query, json_header)
      else none

  -- The text of an error is anyhow's.
  unfoldable pub respond : Option (Result Text × Option Text) → Response
  respond none = not_found
  respond (some (ok body, header)) = record {
    status = 200;
    content_type = header;
    body = text body;
  }
  respond (some (err e, header)) = record {
    status = 500;
    content_type = none;
    body = text (codes "error: ");
  }

  unfoldable pub handle_path : Text → List (Text × Text) → Response
  unfolding static_answer api_answer respond
  handle_path path query = elim (static_answer site.support path) [
    | some r ↦ r
    | none ↦ respond (api_answer path query)
  ]

  unfoldable pub handle : Bytes → Response
  unfolding handle_path
  handle url = elim (split_once b'?' url) [
    | some (path, q) ↦ handle_path path (parse_query site.from_utf8_lossy q)
    | none ↦ handle_path url []
  ]
