-- ===== src/Serve/Routes/Bounded.antt =====
-- What a client can ask for at once (src/serve.rs: handle).
use bip110_crawler.Common.{
  parse_i64, ℕ, ◌≤◌, ◌≡◌, refl, Bool, List, [], ◌∷◌, ◌++◌, Option, some, ℤ, min, max, Text, Bytes,
  codes, list_eq, length, length-take, lookup, arith, take, drop,
}
use bip110_crawler.Db.Blocks.{
  BlockRow, read_blocks, read_blocks_page, read_period_signalling_blocks,
}
use bip110_crawler.Db.Nodes.{NodeRecord}
use bip110_crawler.Db.Snapshot.{Db}
use bip110_crawler.Db.Report.{and_then}
use bip110_crawler.Db.Table.{NodeRow, NodeQuery, read_nodes, matching_rows, sorted_rows}
use bip110_crawler.Serve.Query.{split_once, parse_query}
use bip110_crawler.Serve.Static.{json_header}
use bip110_crawler.Serve.Routes.{
  Site, BlocksReply, retarget_period, number_or, node_query, blocks_body, nodes_body, respond,
  handle,
}

take-Bounded {ℓ} : {A : Type ℓ} (n : ℕ) (xs : List A) → length (take n xs) ≤ n
take-Bounded n xs = omega (arith, length-take n xs)

read_nodes-Bounded :
    {F : Type 0} (lower_other : ℕ → Text) (now max_age_secs : ℕ) (query : NodeQuery)
    (rows : List (NodeRecord F))
    → length (read_nodes lower_other now max_age_secs query rows).0 ≤ query.limit
unfolding read_nodes
read_nodes-Bounded lower_other now max_age_secs query rows =
    take-Bounded query.limit (
      drop query.offset (sorted_rows query (matching_rows lower_other now max_age_secs query rows)))

signalling-Bounded :
    (period_len limit : ℕ) (rows : List BlockRow)
    → length (read_period_signalling_blocks period_len limit rows).2 ≤ limit
unfolding read_period_signalling_blocks
signalling-Bounded period_len limit [] = omega arith
signalling-Bounded period_len limit (t ∷ rows) = take-Bounded limit _

read_blocks-Bounded : (limit : ℕ) (rows : List BlockRow) → length (read_blocks limit rows) ≤ limit
unfolding read_blocks
read_blocks-Bounded limit rows = take-Bounded limit rows

page-Bounded :
    (before : Option ℤ) (limit : ℕ) (rows : List BlockRow)
    → length (read_blocks_page before limit rows).0 ≤ max limit 1
unfolding read_blocks_page
page-Bounded before limit rows = take-Bounded (max limit 1) _

module _ {F : Type 0} (site : Site F) (now max_age_secs : ℕ) (db : Db F) where
  -- Whatever the query says, a request for `/api/nodes` is answered with at most 1,000 rows of the node table,
  -- one for `/api/blocks` with at most 500 blocks and 200 signalling blocks of the period, and one for
  -- `/api/blocks/page` with at most 200 blocks.
  pub handle-Bounded :
      (q : Bytes)
      → ((rows : List NodeRow) × (total : ℕ) × (length rows ≤ 1000)
          × (handle site now max_age_secs db (codes "/api/nodes?" ++ q)
              ≡ respond site now max_age_secs db
                  (some (site.nodes_json (total, rows), json_header))))
        × ((reply : BlocksReply) × (length reply.blocks ≤ 500)
            × (length reply.signalling ≤ 200)
            × (handle site now max_age_secs db (codes "/api/blocks?" ++ q)
                ≡ respond site now max_age_secs db (some (site.blocks_json reply, json_header))))
        × ((rows : List BlockRow) × (more : Bool) × (length rows ≤ 200)
            × (handle site now max_age_secs db (codes "/api/blocks/page?" ++ q)
                ≡ respond site now max_age_secs db
                    (some (site.blocks_page_json (rows, more), json_header))))
  unfolding handle split_once list_eq nodes_body blocks_body read_blocks node_query
  handle-Bounded q =
      let query = parse_query site.from_utf8_lossy q in
      let limit : ℕ = min (number_or 40 (codes "limit") query) 200 in
      let shown : ℕ = min (number_or 50 (codes "limit") query) 500 in
      let before : Option ℤ = and_then parse_i64 (lookup (codes "before") query) in
      let nodes = read_nodes site.lower_other now max_age_secs (node_query query) db.nodes in
      let few = read_nodes-Bounded site.lower_other now max_age_secs (node_query query) db.nodes in
      let page = page-Bounded before limit db.blocks in
      (
        (nodes.0, nodes.1, omega (arith, few), refl),
        (
          _,
          omega (arith, read_blocks-Bounded shown db.blocks),
          signalling-Bounded retarget_period 200 db.blocks,
          refl,
        ),
        (
          (read_blocks_page before limit db.blocks).0,
          (read_blocks_page before limit db.blocks).1,
          omega (arith, page),
          refl,
        ),
      )
