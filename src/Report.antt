-- ===== src/Report.antt =====
-- The pages that carry text of the instance (src/report.rs: html_escape, support_card, render_support_html,
-- render_nav, assemble, and the pages that assemble fills). The embedded files are parameters; a text is
-- the list of its characters.
pub mod Escape
use bip110_crawler.Crawler.Tasks.{is_empty}
use bip110_crawler.Common.{
  ℕ, zero, suc, ◌-◌, Bool, true, false, not, List, [], ◌∷◌, ◌++◌, Option, none, some, if◌then◌else◌,
  ◌==◌, length, Text, codes, list_eq, starts_with,
}

-- `str::replace` by a pattern of one character.
unfoldable pub replace_char : ℕ → Text → Text → Text
replace_char a to [] = []
replace_char a to (c ∷ s) =
    let rest = replace_char a to s in if c == a then to ++ rest else c ∷ rest

-- `str::replace` by a pattern that is not empty: the matches do not overlap, and `skip` characters of one are
-- still to be left out.
unfoldable pub replace_from : ℕ → Text → Text → Text → Text
replace_from skip pat to [] = []
replace_from (suc skip) pat to (c ∷ s) = replace_from skip pat to s
replace_from zero pat to (c ∷ s) = elim (starts_with pat (c ∷ s)) [
  | true ↦ to ++ replace_from (length pat - 1) pat to s
  | false ↦ c ∷ replace_from zero pat to s
]

abbrev pub replace : Text → Text → Text → Text
replace = replace_from 0

unfoldable pub html_escape : Text → Text
unfolding replace_char
html_escape s = replace_char b'"' (codes "&quot;") (
    replace_char b'>' (codes "&gt;")
      (replace_char b'<' (codes "&lt;") (replace_char b'&' (codes "&amp;") s)))

-- One method of donation: its QR code, if there is one, and its address in a box.
unfoldable pub support_card : Text → Text → Text → Option Text → Text → Text
unfolding html_escape
support_card title subtitle value qr_src uri_scheme =
    let v = html_escape value in
    let qr : Text = elim qr_src [
      | none ↦ []
      | some src ↦
          codes "<img class=\"qr\" src=\""
          ++ src
          ++ codes "\" alt=\""
          ++ title
          ++ codes " QR code\" width=\"220\" height=\"220\">"
    ] in
    codes "<div class=\"method\">"
    ++ codes "<div class=\"mhead\"><h2>"
    ++ title
    ++ codes "</h2><span class=\"msub\">"
    ++ subtitle
    ++ codes "</span></div>"
    ++ qr
    ++ codes "<div class=\"addr\" title=\""
    ++ v
    ++ codes "\">"
    ++ v
    ++ codes "</div>"
    ++ codes "<div class=\"mbtns\">"
    ++ codes "<button class=\"btn copy\" data-val=\""
    ++ v
    ++ codes "\">Copy</button>"
    ++ codes "<a class=\"btn open\" href=\""
    ++ uri_scheme
    ++ v
    ++ codes "\">Open in wallet</a>"
    ++ codes "</div>"
    ++ codes "</div>"

-- The embedded files of a page.
pub record Shell : Type 0 where
  pub html : Text
  pub js : Text

-- The path and the label of every page.
abbrev pub nav_links : List (Text × Text)
nav_links =
    (codes "/", codes "◂ Live crawler")
    ∷ (codes "/why", codes "Why BIP-110?")
    ∷ (codes "/code", codes "Code")
    ∷ (codes "/blocks", codes "⛓ Blocks")
    ∷ (codes "/mempool", codes "🏊 Mempool")
    ∷ (codes "/chains", codes "🔀 Chains")
    ∷ (codes "/stats", codes "📊 Stats")
    ∷ (codes "/entropy", codes "🎲 Entropy")
    ∷ (codes "/support", codes "⚡ Support")
    ∷ []

unfoldable pub nav_item : Text → Text × Text → Text
nav_item current (path, label) =
    let class = if list_eq path current then codes " class=\"active\"" else [] in
    codes "<a href=\"" ++ path ++ codes "\"" ++ class ++ codes ">" ++ label ++ codes "</a>"

unfoldable pub nav_items : Text → List (Text × Text) → Text
unfolding nav_item
nav_items current [] = []
nav_items current (link ∷ links) = nav_item current link ++ nav_items current links

unfoldable pub render_nav : Text → Text
unfolding nav_items
render_nav current =
    codes "<nav>"
    ++ codes "<span class=\"brand\">▚ BIP-110</span>"
    ++ codes "<div class=\"nav-links\">"
    ++ nav_items current nav_links
    ++ codes "</div>"
    ++ codes "</nav>"

-- The cards of the page of donations.
unfoldable pub support_cards : Text → Text → Bool → Bool → Text
unfolding support_card
support_cards bitcoin_address lightning_address has_bitcoin_qr has_lightning_qr =
    let bitcoin =
      if is_empty bitcoin_address
      then []
      else support_card (codes "Bitcoin") (codes "on-chain") bitcoin_address
          (if has_bitcoin_qr then some (codes "/support/bitcoin.png") else none)
          (codes "bitcoin:") in
    let lightning =
      if is_empty lightning_address
      then []
      else support_card (codes "Lightning") (codes "instant · low fee") lightning_address
          (if has_lightning_qr then some (codes "/support/lightning.png") else none)
          (codes "lightning:") in
    let cards = bitcoin ++ lightning in
    if is_empty cards
    then codes "<div class=\"notice\">Support isn't configured on this instance.</div>"
    else cards

-- `site_css`, `ticker_js` and `world` are the files that every page, or the dashboard, embeds.
module _ (site_css ticker_js world : Text) where
  unfoldable pub assemble : Shell → Text → Text
  unfolding render_nav replace_from
  assemble shell current =
      replace (codes "</head>")
        (codes "<link rel=\"icon\" type=\"image/svg+xml\" href=\"/favicon.svg\">\n</head>")
        (replace (codes "/*__JS__*/") (ticker_js ++ codes "\n" ++ shell.js) (
          replace (codes "<!--__NAV__-->") (render_nav current)
            (replace (codes "/*__CSS__*/") site_css shell.html)))

  -- The dashboard with its data.
  unfoldable pub render_index_html : Shell → Text → Text
  unfolding assemble
  render_index_html dash json =
      replace (codes "/*__WORLD__*/null") world
        (replace (codes "/*__DATA__*/null") json (assemble dash (codes "/")))

  unfoldable pub render_support_html : Shell → Text → Text → Bool → Bool → Text
  unfolding assemble support_cards
  render_support_html support bitcoin_address lightning_address has_bitcoin_qr has_lightning_qr =
      replace (codes "<!--__CARDS__-->")
        (support_cards bitcoin_address lightning_address has_bitcoin_qr has_lightning_qr)
        (assemble support (codes "/support"))
