-- ===== src/Serve/Routes/Known.antt =====
-- Which paths are answered (src/serve.rs: handle).
use bip110_crawler.Common.{
  ℕ, ◌≡◌, refl, ◌⊎◌, inl, inr, Bool, true, false, ◌&&◌, ◌||◌, List, [], ◌∷◌, Option, none, some,
  if◌then◌else◌, Text, Bytes, codes, list_eq, list_eq→eq, sym, subst, Result, ok, err, Bool-cases,
  Option-cases, arith, All, Error, ◌∙◌,
}
use bip110_crawler.Db.Snapshot.{Db}
use bip110_crawler.P2p.Session.{is_some}
use bip110_crawler.Serve.Query.{split_once, parse_query}
use bip110_crawler.Serve.Static.{text, Support, Response, page_of, static_answer}
use bip110_crawler.Serve.Static.Status.{
  has_path, page_paths, asset_paths, status_of, status-static_answer, is_some-static_answer,
  other_qr,
}
use bip110_crawler.Serve.Routes.{Site, api_answer, respond, handle_path, handle}

abbrev pub api_paths : List Text
api_paths =
    codes "/"
    ∷ codes "/index.html"
    ∷ codes "/api/report"
    ∷ codes "/api/blocks"
    ∷ codes "/api/blocks/page"
    ∷ codes "/api/ticker"
    ∷ codes "/api/chains"
    ∷ codes "/api/mempool"
    ∷ codes "/api/stats"
    ∷ codes "/api/nodes"
    ∷ []

-- A path that is answered from the program or the database, and a QR code that is there.
abbrev pub answered : Support → Text → Bool
answered support path =
    (has_path path page_paths || has_path path asset_paths)
    || (list_eq path (codes "/support/bitcoin.png") && is_some support.btc_qr)
    || (list_eq path (codes "/support/lightning.png") && is_some support.ln_qr)
    || has_path path api_paths

abbrev pub path_of : Bytes → Text
path_of url = elim (split_once b'?' url) [ none ↦ url | some (path, q) ↦ path ]

qr_not_api :
    (path : Text)
    → (list_eq path (codes "/support/bitcoin.png") || list_eq path (codes "/support/lightning.png"))
      ≡ true
    → has_path path api_paths ≡ false
unfolding list_eq
qr_not_api path h = elim (Bool-cases (list_eq path (codes "/support/bitcoin.png"))) [
  | inl e ↦
      subst (λ p. has_path p api_paths ≡ false)
        (sym (list_eq→eq path (codes "/support/bitcoin.png") e)) refl
  | inr e ↦
      subst (λ p. has_path p api_paths ≡ false)
        (sym (list_eq→eq path (codes "/support/lightning.png") (ground (arith, h, e)))) refl
]

has_path-all :
    (P : Text → Type 0) (path : Text) (paths : List Text)
    → All P paths
    → has_path path paths ≡ true
    → P path
has_path-all P path [] a h = absurd (cc h)
has_path-all P path (p ∷ paths) a h = elim (Bool-cases (list_eq path p)) [
  | inl e ↦ subst P (sym (list_eq→eq path p e)) a.0
  | inr e ↦ has_path-all P path paths a.1 (ground arith)
]

-- No path of the API has an answer without the database.
api_dynamic : (support : Support) → All (λ p. is_some (static_answer support p) ≡ false) api_paths
unfolding static_answer is_some list_eq page_of
api_dynamic support =
    (refl, (refl, (refl, (refl, (refl, (refl, (refl, (refl, (refl, (refl, tt))))))))))

module _ {F : Type 0} (site : Site F) (now max_age_secs : ℕ) (db : Db F) where
  is_some-api_answer :
      (path : Text) (query : List (Text × Text))
      → is_some (api_answer site now max_age_secs db path query) ≡ has_path path api_paths
  unfolding api_answer is_some
  is_some-api_answer path query = ground arith

  -- What a response without a static answer has for a status.
  status-respond :
      (o : Option (Result Text × Option Text))
      → (is_some o ≡ false → (respond site now max_age_secs db o).status ≡ 404)
        × (is_some o ≡ true
            → ((respond site now max_age_secs db o).status ≡ 200)
              ⊎ ((respond site now max_age_secs db o).status ≡ 500))
  unfolding respond is_some
  status-respond none = (λ e. refl, λ e. absurd cc)
  status-respond (some (ok body, header)) = (λ e. absurd cc, λ e. inl refl)
  status-respond (some (err x, header)) = (λ e. absurd cc, λ e. inr refl)

  chosen :
      (s : Option Response) (o : Option (Result Text × Option Text))
      (shown btc ln api has_btc has_ln : Bool)
      → is_some s ≡ (shown || btc || ln)
      → status_of s ≡ (
          if shown
          then 200
          else if btc
          then if has_btc then 200 else 404
          else if ln
          then if has_ln then 200 else 404
          else 0)
      → is_some o ≡ api
      → ((btc || ln) ≡ true → api ≡ false)
      → (btc ≡ true → ln ≡ false)
      → let known = shown || (btc && has_btc) || (ln && has_ln) || api in
        let response : Response = elim s [
          | some r ↦ r
          | none ↦ respond site now max_age_secs db o
        ] in
        (known ≡ false → response.status ≡ 404)
        × (known ≡ true → (response.status ≡ 200) ⊎ (response.status ≡ 500))
        × (api ≡ false → known ≡ true → response.status ≡ 200)
  unfolding is_some
  chosen none o shown btc ln api has_btc has_ln a b c d x =
      let (missing, found) = status-respond o in
      (λ e. missing (ground arith), λ e. found (ground arith), λ f e. absurd (ground arith))
  chosen (some r) o shown btc ln api has_btc has_ln a b c d x =
      (λ e. ground arith, λ e. inl (ground arith), λ f e. ground arith)

  handle_path-answered :
      (path : Text) (query : List (Text × Text))
      → let response = handle_path site now max_age_secs db path query in
        (answered site.support path ≡ false → response.status ≡ 404)
        × (answered site.support path ≡ true → (response.status ≡ 200) ⊎ (response.status ≡ 500))
        × (has_path path api_paths ≡ false
            → answered site.support path ≡ true
            → response.status ≡ 200)
  unfolding handle_path
  handle_path-answered path query =
      chosen (static_answer site.support path) (api_answer site now max_age_secs db path query)
        (has_path path page_paths || has_path path asset_paths)
        (list_eq path (codes "/support/bitcoin.png"))
        (list_eq path (codes "/support/lightning.png")) (has_path path api_paths)
        (is_some site.support.btc_qr) (is_some site.support.ln_qr)
        (is_some-static_answer site.support path) (status-static_answer site.support path)
        (is_some-api_answer path query) (qr_not_api path) (other_qr path)

  handle-branches :
      (url : Bytes)
      → let response = handle site now max_age_secs db url in
        let path = path_of url in
        (answered site.support path ≡ false → response.status ≡ 404)
        × (answered site.support path ≡ true → (response.status ≡ 200) ⊎ (response.status ≡ 500))
        × (has_path path api_paths ≡ false
            → answered site.support path ≡ true
            → response.status ≡ 200)
  unfolding handle
  handle-branches url = elim (Option-cases (split_once b'?' url)) [
    | inl e ↦ rw (e, path_of, handle) (handle_path-answered url [])
    | inr ((path, q), e) ↦
        rw (e, path_of, handle) (handle_path-answered path (parse_query site.from_utf8_lossy q))
  ]

  -- What is answered to a path of the API: the result that is made for it decides the status and the body.
  pub data Follows (response : Response) : Option (Result Text × Option Text) → Type 0 where
    good :
        (body : Text) (header : Option Text)
        → response ≡ record { status = 200; content_type = header; body = text body }
        → Follows response (some (ok body, header))
    failed :
        (e : Error) (header : Option Text)
        → response.status ≡ 500
        → Follows response (some (err e, header))

  respond-Follows :
      (o : Option (Result Text × Option Text))
      → is_some o ≡ true
      → Follows (respond site now max_age_secs db o) o
  unfolding respond is_some
  respond-Follows none h = absurd cc
  respond-Follows (some (ok body, header)) h = good body header refl
  respond-Follows (some (err e, header)) h = failed e header refl

  api-Follows :
      (path : Text) (query : List (Text × Text))
      → has_path path api_paths ≡ true
      → Follows
          (handle_path site now max_age_secs db path query)
          (api_answer site now max_age_secs db path query)
  unfolding handle_path is_some
  api-Follows path query h =
      let dynamic : is_some (static_answer site.support path) ≡ false =
        has_path-all (λ p. is_some (static_answer site.support p) ≡ false) path api_paths
          (api_dynamic site.support) h in
      elim (Option-cases (static_answer site.support path)) [
        | inl e ↦ rw (e, handle_path) (respond-Follows _ (is_some-api_answer path query ∙ h))
        | inr (r, e) ↦ absurd (cc (rw e at dynamic))
      ]

  -- The query of a URL: what is behind its first `?`.
  abbrev pub query_of : Bytes → List (Text × Text)
  query_of url = elim (split_once b'?' url) [
    | none ↦ []
    | some (path, q) ↦ parse_query site.from_utf8_lossy q
  ]

  handle-path_of :
      (url : Bytes)
      → handle site now max_age_secs db url
        ≡ handle_path site now max_age_secs db (path_of url) (query_of url)
  unfolding handle
  handle-path_of url = elim (Option-cases (split_once b'?' url)) [
    | inl e ↦ rw (e, path_of, query_of, handle) refl
    | inr ((path, q), e) ↦ rw (e, path_of, query_of, handle) refl
  ]

  -- Every request is answered. A path that nothing is at gives 404, and a QR code that is not there counts as
  -- that. A path of a page, an asset or a QR code that is there gives 200. A path of the API gives 200 with the
  -- text that is made out of the database, and 500 exactly if making it fails. The path is what stands before
  -- the first `?` of the URL.
  pub handle-answered :
      (url : Bytes)
      → let response = handle site now max_age_secs db url in
        let path = path_of url in
        ((answered site.support path ≡ false) × (response.status ≡ 404))
        ⊎ (((answered site.support path ≡ true)
              × (has_path path api_paths ≡ false)
              × (response.status ≡ 200))
            ⊎ ((has_path path api_paths ≡ true)
                × Follows response (api_answer site now max_age_secs db path (query_of url))))
  handle-answered url =
      let (missing, found, static) = handle-branches url in
      let path = path_of url in
      elim (Bool-cases (has_path path api_paths)) [
        | inl api ↦ inr (
            inr (
              api,
              subst (λ r. Follows r (api_answer site now max_age_secs db path (query_of url)))
                  (sym (handle-path_of url)) (api-Follows path (query_of url) api),
            ))
        | inr page ↦ elim (Bool-cases (answered site.support path)) [
          | inr e ↦ inl (e, missing e)
          | inl e ↦ inr (inl (e, page, static page e))
        ]
      ]
