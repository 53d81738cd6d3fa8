-- ===== src/Serve/Static.antt =====
-- The answers that read no database (src/serve.rs: handle, Support). The pages' HTML and the images are
-- parameters.
pub mod Status
use bip110_crawler.Common.{
  ℕ, Bool, true, false, ◌&&◌, ◌||◌, List, [], ◌∷◌, Option, none, some, if◌then◌else◌, Text, Bytes,
  codes, list_eq,
}

-- The pages that are rendered from nothing but the program.
pub data Page : Type 0 where
  why code stats chains blocks mempool entropy : Page

pub data Body : Type 0 where
  favicon og_image : Body
  rendered : Page → Body
  text : Text → Body
  image : Bytes → Body

pub record Response : Type 0 where
  pub status : ℕ
  pub content_type : Option Text
  pub body : Body

pub record Support : Type 0 where
  pub html : Text
  pub btc_qr : Option Bytes
  pub ln_qr : Option Bytes

abbrev pub html_header : Option Text
html_header = some (codes "text/html; charset=utf-8")

abbrev pub json_header : Option Text
json_header = some (codes "application/json")

abbrev pub not_found : Response
not_found = record { status = 404; content_type = none; body = text (codes "not found") }

unfoldable pub page_of : Text → Option Page
page_of path =
    if list_eq path (codes "/why") || list_eq path (codes "/why.html")
    then some why
    else if list_eq path (codes "/code") || list_eq path (codes "/code.html")
    then some code
    else if list_eq path (codes "/stats") || list_eq path (codes "/stats.html")
    then some stats
    else if list_eq path (codes "/chains") || list_eq path (codes "/chains.html")
    then some chains
    else if list_eq path (codes "/blocks") || list_eq path (codes "/blocks.html")
    then some blocks
    else if list_eq path (codes "/mempool") || list_eq path (codes "/mempool.html")
    then some mempool
    else if list_eq path (codes "/entropy") || list_eq path (codes "/entropy.html")
    then some entropy
    else none

unfoldable pub qr_answer : Option Bytes → Response
qr_answer (some b) = record {
  status = 200;
  content_type = some (codes "image/png");
  body = image b;
}
qr_answer none = not_found

-- The answers that read no database.
unfoldable pub static_answer : Support → Text → Option Response
unfolding page_of qr_answer
static_answer support path =
    if list_eq path (codes "/favicon.svg") || list_eq path (codes "/favicon.ico")
    then some (record { status = 200; content_type = some (codes "image/svg+xml"); body = favicon })
    else if list_eq path (codes "/summary_large_image.png")
    then some (record { status = 200; content_type = some (codes "image/png"); body = og_image })
    else elim (page_of path) [
      | some p ↦ some (record { status = 200; content_type = html_header; body = rendered p })
      | none ↦
          if list_eq path (codes "/support") || list_eq path (codes "/support.html")
          then some (record { status = 200; content_type = html_header; body = text support.html })
          else if list_eq path (codes "/support/bitcoin.png")
          then some (qr_answer support.btc_qr)
          else if list_eq path (codes "/support/lightning.png")
          then some (qr_answer support.ln_qr)
          else none
    ]
