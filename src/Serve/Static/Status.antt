-- ===== src/Serve/Static/Status.antt =====
-- Which paths are answered without the database, and with which status (src/serve.rs).
use bip110_crawler.Common.{
  ℕ, ◌≡◌, refl, inl, inr, Bool, true, false, ◌||◌, List, [], ◌∷◌, Option, none, some, if◌then◌else◌,
  Text, Bytes, codes, list_eq, list_eq→eq, sym, subst, Option-cases, arith,
}
use bip110_crawler.P2p.Session.{is_some}
use bip110_crawler.Serve.Static.{Response, Support, page_of, qr_answer, static_answer}

abbrev pub has_path : Text → List Text → Bool
has_path path [] = false
has_path path (p ∷ ps) = list_eq path p || has_path path ps

abbrev pub page_paths : List Text
page_paths =
    codes "/why"
    ∷ codes "/why.html"
    ∷ codes "/code"
    ∷ codes "/code.html"
    ∷ codes "/stats"
    ∷ codes "/stats.html"
    ∷ codes "/chains"
    ∷ codes "/chains.html"
    ∷ codes "/blocks"
    ∷ codes "/blocks.html"
    ∷ codes "/mempool"
    ∷ codes "/mempool.html"
    ∷ codes "/entropy"
    ∷ codes "/entropy.html"
    ∷ []

abbrev pub asset_paths : List Text
asset_paths =
    codes "/favicon.svg"
    ∷ codes "/favicon.ico"
    ∷ codes "/summary_large_image.png"
    ∷ codes "/support"
    ∷ codes "/support.html"
    ∷ []

pub is_some-page_of : (path : Text) → is_some (page_of path) ≡ has_path path page_paths
unfolding page_of is_some
is_some-page_of path = ground arith

abbrev pub status_of : Option Response → ℕ
status_of none = 0
status_of (some r) = r.status

status-qr : (o : Option Bytes) → (qr_answer o).status ≡ (if is_some o then 200 else 404)
unfolding qr_answer is_some
status-qr none = refl
status-qr (some b) = refl

pub status-static_answer :
    (support : Support) (path : Text)
    → status_of (static_answer support path) ≡ (
        if has_path path page_paths || has_path path asset_paths
        then 200
        else if list_eq path (codes "/support/bitcoin.png")
        then if is_some support.btc_qr then 200 else 404
        else if list_eq path (codes "/support/lightning.png")
        then if is_some support.ln_qr then 200 else 404
        else 0)
unfolding static_answer is_some
status-static_answer support path = elim (Option-cases (page_of path)) [
  | inl e ↦
      rw e (ground (arith, is_some-page_of path, status-qr support.btc_qr, status-qr support.ln_qr))
  | inr (p, e) ↦ rw e (ground (arith, is_some-page_of path))
]

pub is_some-static_answer :
    (support : Support) (path : Text)
    → is_some (static_answer support path) ≡ (
        (has_path path page_paths || has_path path asset_paths)
        || list_eq path (codes "/support/bitcoin.png")
        || list_eq path (codes "/support/lightning.png"))
unfolding static_answer is_some
is_some-static_answer support path = elim (Option-cases (page_of path)) [
  | inl e ↦ rw e (ground (arith, is_some-page_of path))
  | inr (p, e) ↦ rw e (ground (arith, is_some-page_of path))
]

pub other_qr :
    (path : Text)
    → list_eq path (codes "/support/bitcoin.png") ≡ true
    → list_eq path (codes "/support/lightning.png") ≡ false
unfolding list_eq
other_qr path e =
    subst (λ p. list_eq p (codes "/support/lightning.png") ≡ false)
      (sym (list_eq→eq path (codes "/support/bitcoin.png") e)) refl
