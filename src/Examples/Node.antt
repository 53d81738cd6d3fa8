-- ===== src/Examples/Node.antt =====
-- What is computed from the node's replies, the clock, and a saved crawl, at concrete inputs
-- (src/rpc.rs, src/main.rs, src/time.rs, src/crawler.rs).
use bip110_crawler.Common.{
  ℕ, if◌then◌else◌, ◌==◌, ◌+◌, ◌%◌, ◌≤◌, ◌≡◌, refl, true, [], ◌∷◌, Option, some, length, replicate,
  list_eq, from_hex_2, to_digit_16, skip_while, is_whitespace, Text, codes, Result, ok, ℤ, pos,
  ◌-ℤ◌,
}
use bip110_crawler.Crawler.{Shared}
use bip110_crawler.Crawler.Tasks.{is_empty}
use bip110_crawler.P2p.Peer.{v4, Peer, is_onion}
use bip110_crawler.Rpc.Coinbase.{
  hex_pairs, runs_of, is_printable, best_run, split_slash, segments_of, clean_tag, pool_of,
  miner_of, join_tag, tag_of, parse_coinbase_tag,
}
use bip110_crawler.Rpc.Signalling.{SignalStats}
use bip110_crawler.Locator.{build_locator}
use bip110_crawler.Locator.Spacing.{
  Descends, Located, offsets, positive_heights, heights_of, build_locator-Descends,
}
use bip110_crawler.Time.{civil, year_of_era, day_of_year, digits, padded, iso_from_unix}
use bip110_crawler.Time.Calendar.{ordinal, IsDate, civil-IsDate}
use bip110_crawler.Crawler.System.Start.{empty_shared, resume}
use bip110_crawler.Crawler.System.Save.{save_state}
use bip110_crawler.Crawler.System.Save.Resumes.{resume-save_state}

-- `/Foundry/` behind a stray byte.
abbrev foundry : Text
foundry = codes "03012f466f756e6472792f"

foundry_tag : parse_coinbase_tag foundry ≡ codes "Foundry"
unfolding parse_coinbase_tag hex_pairs from_hex_2 to_digit_16 runs_of is_printable is_empty best_run
    split_slash segments_of clean_tag skip_while is_whitespace tag_of pool_of miner_of join_tag
    list_eq
foundry_tag = refl

-- Blocks that signal with bit 4 at every second height.
abbrev header : ℕ → Result ℤ
header h = if h % 2 == 0 then ok (pos (0x2000_0000 + 16)) else ok (pos 0x2000_0000)

abbrev stats : SignalStats
stats = record { window = 3; blocks_scanned = 2; blocks_signalling = 1; bit = 4; tip_height = 10 }

abbrev block_reply : ℤ → Option Text
block_reply h = some (replicate 64 b'0')

build_locator-Descends_example :
    Located block_reply
      (positive_heights (pos 100 -ℤ pos 12) offsets)
      (build_locator block_reply (pos 100))
    × (length (build_locator block_reply (pos 100)) ≤ 24)
    × Descends (pos 100 -ℤ pos 12) (heights_of (build_locator block_reply (pos 100)))
build_locator-Descends_example = build_locator-Descends block_reply (pos 100)

civil-IsDate_example : (ordinal (civil 18628) ≡ 18628 + 719162) × IsDate (civil 18628)
civil-IsDate_example = civil-IsDate 18628

new_year_2021 : iso_from_unix 1609459200 ≡ codes "2021-01-01T00:00:00Z"
unfolding iso_from_unix civil year_of_era day_of_year padded digits
new_year_2021 = refl

-- One task of each kind.
abbrev near : Peer
near = Peer.clearnet (v4 (1 ∷ 2 ∷ 3 ∷ 4 ∷ [])) 8333

abbrev far : Peer
far = Peer.onion (codes "x.onion") 8333

abbrev show : Peer → Text
show (Peer.clearnet ip port) = codes "near"
show (Peer.onion host port) = codes "far"

abbrev parse : Text → Option Peer
parse t = if length t == 4 then some near else some far

abbrev paused : Shared
paused = record {
  frontier = record { clearnet = (near, 1) ∷ []; onion = (far, 2) ∷ []; active = 3 };
  seen = [];
  nodes = [];
  edges = [];
}

resume-save_state_example :
    (resume parse true (some (save_state show paused)) empty_shared).frontier
    ≡ record paused.frontier { active = 0 }
unfolding list_eq is_onion
resume-save_state_example =
    resume-save_state show parse paused ((refl, refl), tt) ((refl, refl), tt) (refl, tt) (refl, tt)
