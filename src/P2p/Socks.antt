-- ===== src/P2p/Socks.antt =====
-- The SOCKS5 client (src/p2p.rs: `socks5_connect`). The stream is what the proxy sends; what is sent
-- to it is a value of its own, and a write that fails ends the connection.
pub mod Connects
use bip110_crawler.Common.{
  ℕ, ◌+◌, ◌%◌, Bool, not, ◌||◌, [], ◌∷◌, ◌++◌, if◌then◌else◌, ltb, ◌==◌, length, get_or, Text,
  Bytes, to_be_bytes, Result, ok, err, ◌>>=◌, Error,
}
use Error.{refused_no_auth, host_too_long, connect_failed, unexpected_atyp}
use bip110_crawler.P2p.Frame.{read_exact}

-- VER=5, 1 method, method 0 (no auth).
abbrev pub greeting : Bytes
greeting = 0x05 ∷ 0x01 ∷ 0x00 ∷ []

-- VER=5, CMD=1, RSV=0, ATYP=3 (domain), the length of the host, the host and the port.
unfoldable pub connect_request : Text → ℕ → Bytes
connect_request host port =
    0x05 ∷ 0x01 ∷ 0x00 ∷ 0x03 ∷ (length host % 256) ∷ [] ++ (host ++ to_be_bytes 2 port)

-- The length of the bound address, by its type.
unfoldable pub bound_length : ℕ → Bytes → Result (ℕ × Bytes)
bound_length atyp stream =
    if atyp == 0x01
    then ok (4, stream)
    else if atyp == 0x04
    then ok (16, stream)
    else if atyp == 0x03
    then (do (l, stream') ← read_exact 1 stream; ok (get_or l 0 0, stream'))
    else err (unexpected_atyp atyp)

-- The reply to the request: what follows it in the stream.
unfoldable pub read_reply : Bytes → Result Bytes
unfolding bound_length
read_reply stream = do
  (head, stream1) ← read_exact 4 stream
  (if not (get_or head 1 0 == 0x00) then err (connect_failed (get_or head 1 0)) else (do
    (addr_len, stream2) ← bound_length (get_or head 3 0) stream1
    (_, stream3) ← read_exact (addr_len + 2) stream2
    ok stream3))

-- What is sent in all, and the stream behind the reply.
unfoldable pub socks5_connect : Text → ℕ → Bytes → Result (Bytes × Bytes)
unfolding connect_request read_reply
socks5_connect host port stream = do
  (greet, stream1) ← read_exact 2 stream
  (if not (get_or greet 0 0 == 0x05) || not (get_or greet 1 0 == 0x00)
      then err refused_no_auth
      else if ltb 255 (length host)
      then err host_too_long
      else (do rest ← read_reply stream1; ok (greeting ++ connect_request host port, rest)))
