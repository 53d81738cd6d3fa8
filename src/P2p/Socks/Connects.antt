-- ===== src/P2p/Socks/Connects.antt =====
-- The connection goes through exactly behind a proper greeting and reply (src/p2p.rs).
use bip110_crawler.Common.{
  ℕ, ◌+◌, ◌≤◌, ◌≡◌, refl, [], ◌∷◌, ◌++◌, length, le→ltb, Text, Bytes, ok, ◌>>=◌,
}
use bip110_crawler.P2p.Frame.RoundTrip.{read_exact-append}
use bip110_crawler.P2p.Socks.{greeting, connect_request, bound_length, read_reply, socks5_connect}

-- The bound address of a reply: its type, the bytes that carry its length, and its own length.
pub data Bound : ℕ → Bytes → ℕ → Type 0 where
  ipv4 : Bound 0x01 [] 4
  ipv6 : Bound 0x04 [] 16
  domain : (n : ℕ) → Bound 0x03 (n ∷ []) n

bound_length-Bound :
    {atyp : ℕ} {prefix : Bytes} {n : ℕ}
    → Bound atyp prefix n
    → (stream : Bytes) → bound_length atyp (prefix ++ stream) ≡ ok (n, stream)
unfolding bound_length
bound_length-Bound ipv4 stream = refl
bound_length-Bound ipv6 stream = refl
bound_length-Bound (domain n) stream = rw (read_exact-append 1 (n ∷ []) stream refl) refl

-- With a proxy that accepts no authentication and answers success, for any kind of bound address,
-- the greeting and the request are sent and the stream goes on right behind the reply, for a host of
-- at most 255 bytes.
pub socks5_connect-reply :
    (host : Text) (port ver rsv : ℕ) {atyp : ℕ} {prefix : Bytes} {n : ℕ} (bound tunnel : Bytes)
    → length host ≤ 255
    → Bound atyp prefix n
    → length bound ≡ n + 2
    → socks5_connect host port
        ((0x05 ∷ 0x00 ∷ []) ++ ((ver ∷ 0x00 ∷ rsv ∷ atyp ∷ []) ++ (prefix ++ (bound ++ tunnel))))
      ≡ ok (greeting ++ connect_request host port, tunnel)
unfolding socks5_connect read_reply
socks5_connect-reply host port ver rsv {atyp} {prefix} {n} bound tunnel h b e =
    rw
      (
        read_exact-append 2 (0x05 ∷ 0x00 ∷ [])
            ((ver ∷ 0x00 ∷ rsv ∷ atyp ∷ []) ++ (prefix ++ (bound ++ tunnel))) refl,
        le→ltb 255 (length host) h,
        socks5_connect,
        read_exact-append 4 (ver ∷ 0x00 ∷ rsv ∷ atyp ∷ []) (prefix ++ (bound ++ tunnel)) refl,
        read_reply,
        bound_length-Bound b (bound ++ tunnel),
        ◌>>=◌,
        read_exact-append (n + 2) bound tunnel e,
      )
      refl
