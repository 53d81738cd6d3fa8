-- ===== src/Rpc/Replies/Auth/Decode.antt =====
-- A reader of base64 gets back what was encoded (src/rpc.rs).
use bip110_crawler.Common.{
  ℕ, zero, suc, ◌+◌, ◌-◌, ◌*◌, ◌/◌, ◌%◌, ◌^◌, ◌==◌, Bool, true, false, ◌&&◌, not, [], ◌∷◌,
  if◌then◌else◌, leb, get_or, Text, Bytes, Option, none, some, ltb,
}
use bip110_crawler.Crawler.Tasks.{is_empty}
use bip110_crawler.Rpc.Replies.Auth.{table}

-- The six bits that a letter of RFC 4648 stands for.
abbrev pub value_of : ℕ → ℕ
value_of c =
    if leb b'A' c && leb c b'Z'
    then c - b'A'
    else if leb b'a' c && leb c b'z'
    then c - b'a' + 26
    else if leb b'0' c && leb c b'9'
    then c - b'0' + 52
    else if c == b'+'
    then 62
    else if c == b'/'
    then 63
    else 64

-- A letter of the alphabet; every other character has the value 64.
abbrev pub is_base64 : ℕ → Bool
is_base64 c = ltb (value_of c) 64

-- The bytes of four letters, of which the last two may be padding.
abbrev pub quad : ℕ → ℕ → ℕ → ℕ → ℕ
quad w x y z = value_of w * 2 ^ 18 + value_of x * 2 ^ 12 + value_of y * 2 ^ 6 + value_of z

abbrev three : ℕ → ℕ → ℕ → Option Bytes → Option Bytes
three a b c none = none
three a b c (some bytes) = some (a ∷ b ∷ c ∷ bytes)

-- A text of whole fours of letters, of which the last may be padded; nothing else is decoded.
pub base64_decode : Text → Option Bytes
base64_decode [] = some []
base64_decode (w ∷ x ∷ y ∷ z ∷ rest) =
    let n = quad w x y z in
    let behind = base64_decode rest in
    if not (is_base64 w && is_base64 x)
    then none
    else if y == b'='
    then if z == b'=' && is_empty rest then some (n / 2 ^ 16 ∷ []) else none
    else if not (is_base64 y)
    then none
    else if z == b'='
    then if is_empty rest then some (n / 2 ^ 16 ∷ n / 2 ^ 8 % 256 ∷ []) else none
    else if not (is_base64 z)
    then none
    else three (n / 2 ^ 16) (n / 2 ^ 8 % 256) (n % 256) behind
base64_decode s = none

-- A test at `count` numbers from `first` on.
holds_from : (ℕ → Bool) → ℕ → ℕ → Bool
holds_from test first zero = true
holds_from test first (suc count) =
    let later = holds_from test (first + 1) count in if test first then later else false

is_letter : ℕ → Bool
is_letter i = (value_of (get_or table i 0) == i) && not (get_or table i 0 == b'=')
