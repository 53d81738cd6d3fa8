-- ===== src/Examples/Pages.antt =====
-- Text of the instance on a page (src/report.rs).
use bip110_crawler.Common.{
  ◌≡◌, refl, true, false, Text, codes, length, ◌≤◌, arith, [], ◌∷◌, ◌++◌, list_eq,
}
use bip110_crawler.Report.{
  html_escape, replace_char, replace, replace_from, support_cards, nav_items, nav_item,
}
use bip110_crawler.Report.Escape.{Escapes, html_escape-Escapes}

abbrev hostile : Text
hostile = codes "\"><b>&lt;"

html_escape-Escapes_example : Escapes hostile (codes "&quot;&gt;&lt;b&gt;&amp;lt;")
unfolding html_escape replace_char
html_escape-Escapes_example = html_escape-Escapes hostile

nothing_configured :
    support_cards [] [] true true
    ≡ codes "<div class=\"notice\">Support isn't configured on this instance.</div>"
unfolding support_cards bip110_crawler.Crawler.Tasks.is_empty
nothing_configured = refl

-- The nav of a page marks that page.
blocks_active :
    nav_items (codes "/blocks") ((codes "/", codes "a") ∷ (codes "/blocks", codes "b") ∷ [])
    ≡ codes "<a href=\"/\">a</a><a href=\"/blocks\" class=\"active\">b</a>"
unfolding nav_items nav_item list_eq
blocks_active = refl

-- Matches do not overlap.
replaced : replace (codes "aa") (codes "b") (codes "aaaca") ≡ codes "baca"
unfolding replace_from bip110_crawler.Common.starts_with
replaced = refl
