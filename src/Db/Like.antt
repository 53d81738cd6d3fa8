-- ===== src/Db/Like.antt =====
-- SQL's LIKE, as SQLite has it: `%` stands for any text, `_` for one character, and the letters of
-- ASCII match in either case (src/db.rs).
use bip110_crawler.Common.{
  ℕ, ◌+◌, Bool, true, false, ◌&&◌, ◌||◌, [], ◌∷◌, Option, none, some, if◌then◌else◌, leb, ◌==◌,
  Text,
}

unfoldable pub fold_case : ℕ → ℕ
fold_case c = if leb b'A' c && leb c b'Z' then c + 32 else c

unfoldable pub some_suffix : (Text → Bool) → Text → Bool
some_suffix p [] = p []
some_suffix p (c ∷ s) = p (c ∷ s) || some_suffix p s

unfoldable pub like : Text → Text → Bool
unfolding fold_case some_suffix
like [] [] = true
like [] (c ∷ s) = false
like (p ∷ ps) [] = (p == b'%') && like ps []
like (p ∷ ps) (c ∷ s) =
    if p == b'%'
    then some_suffix (like ps) (c ∷ s)
    else ((p == b'_') || (fold_case p == fold_case c)) && like ps s

-- A comparison with NULL is not true.
unfoldable pub like_option : Text → Option Text → Bool
like_option p none = false
like_option p (some s) = like p s
