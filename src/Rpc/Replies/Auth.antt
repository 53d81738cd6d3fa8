-- ===== src/Rpc/Replies/Auth.antt =====
-- The credentials of a call (src/rpc.rs: basic_auth_header, base64_encode).
pub mod Decode
use bip110_crawler.Common.{ℕ, ◌+◌, ◌*◌, ◌/◌, ◌%◌, ◌^◌, [], ◌∷◌, ◌++◌, get_or, Text, Bytes, codes}

abbrev pub table : Text
table = codes "ABCDEFGHIJKLMNOPQRSTUVWXYZabcdefghijklmnopqrstuvwxyz0123456789+/"

-- `TABLE[i]`, for the six bits of `n` above `2 ^ k`.
unfoldable pub sextet : ℕ → ℕ → ℕ
sextet n k = get_or table (n / 2 ^ k % 64) 0

-- One chunk: the bytes that it lacks are 0, and the digits for them are `=`.
unfoldable pub base64_encode : Bytes → Text
unfolding sextet
base64_encode [] = []
base64_encode (a ∷ []) = let n = a * 2 ^ 16 in sextet n 18 ∷ sextet n 12 ∷ b'=' ∷ b'=' ∷ []
base64_encode (a ∷ b ∷ []) =
    let n = a * 2 ^ 16 + b * 2 ^ 8 in sextet n 18 ∷ sextet n 12 ∷ sextet n 6 ∷ b'=' ∷ []
base64_encode (a ∷ b ∷ c ∷ rest) =
    let n = a * 2 ^ 16 + b * 2 ^ 8 + c in
    sextet n 18 ∷ sextet n 12 ∷ sextet n 6 ∷ sextet n 0 ∷ base64_encode rest

unfoldable pub basic_auth_header : Bytes → Bytes → Text
unfolding base64_encode
basic_auth_header user pass = codes "Basic " ++ base64_encode (user ++ (codes ":" ++ pass))
