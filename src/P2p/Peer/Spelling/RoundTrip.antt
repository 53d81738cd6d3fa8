-- ===== src/P2p/Peer/Spelling/RoundTrip.antt =====
-- A peer is read back from its text (src/p2p.rs).
use bip110_crawler.Common.{
  AreBytes, ℕ, length, length-append, zero, suc, ◌+◌, ◌*◌, ◌-◌, ◌/◌, ◌%◌, ◌^◌, ◌<◌, ◌≡◌, refl, ◌∙◌,
  inl, inr, true, false, [], ◌∷◌, ◌++◌, Option, none, some, ◌==◌, ltb, Bool-cases, Text, codes,
  ends_with, parse_unsigned, parse_u16, all_digits, digits_value, is_ascii_digit, decimal, arith,
  lt→ltb, ltb→lt,
}
use bip110_crawler.P2p.Peer.{IpAddr, Peer, v4, v6, clearnet, onion}
use bip110_crawler.P2p.Peer.Spelling.{rsplit_once, parse_onion, parse_peer, show_peer}
use bip110_crawler.Time.{digits}
use bip110_crawler.Time.Digits.{digits-small, digits-step}

all_digits-append :
    (s t : Text) → all_digits s ≡ true → all_digits t ≡ true → all_digits (s ++ t) ≡ true
unfolding all_digits
all_digits-append [] t a b = b
all_digits-append (c ∷ s) t a b = ground (arith, a, all_digits-append s t)

decimal-append :
    (acc n : ℕ) (s : Text) → decimal acc (s ++ (b'0' + n) ∷ []) ≡ decimal acc s * 10 + n
unfolding decimal
decimal-append acc n [] = omega arith
decimal-append acc n (c ∷ s) = decimal-append (acc * 10 + (c - b'0')) n s

-- The digits of a number with at most `fuel` of them.
abbrev pub Reads : Text → ℕ → Type 0
Reads s n = (0 < length s) × (all_digits s ≡ true) × (decimal 0 s ≡ n)

pub digits-Reads : (fuel n : ℕ) → n < 10 ^ suc fuel → Reads (digits (suc fuel) n) n
unfolding all_digits is_ascii_digit decimal
digits-Reads zero n h = rw (digits-small 0 n (omega arith)) (omega arith, ground arith, omega arith)
digits-Reads (suc fuel) n h = elim (Bool-cases (ltb n 10)) [
  | inl small ↦
      rw (digits-small (suc fuel) n (ltb→lt n 10 small))
        (omega arith, ground (arith, small), omega arith)
  | inr large ↦
      let (some_digit, ds, value) = digits-Reads fuel (n / 10) (omega arith) in
      let last : all_digits ((b'0' + n % 10) ∷ []) ≡ true = ground arith in
      rw (digits-step (suc fuel) n (ground (arith, large))) (
        omega
            (arith, length-append (digits (suc fuel) (n / 10)) ((b'0' + n % 10) ∷ []), some_digit),
        all_digits-append (digits (suc fuel) (n / 10)) ((b'0' + n % 10) ∷ []) ds last,
        decimal-append 0 (n % 10) (digits (suc fuel) (n / 10)) ∙ omega (arith, value),
      )
]

All-digits-free : (s : Text) → all_digits s ≡ true → rsplit_once b':' s ≡ none
unfolding rsplit_once all_digits is_ascii_digit
All-digits-free [] h = refl
All-digits-free (c ∷ s) h = rw (All-digits-free s (ground (arith, h))) (ground (arith, h))

pub rsplit_once-append :
    (host s : Text) → all_digits s ≡ true → rsplit_once b':' (host ++ b':' ∷ s) ≡ some (host, s)
unfolding rsplit_once
rsplit_once-append [] s h = rw (All-digits-free s h) refl
rsplit_once-append (c ∷ host) s h = rw (rsplit_once-append host s h) refl

plus_is_no_digit : (c : ℕ) (s : Text) → all_digits (c ∷ s) ≡ true → (c == b'+') ≡ false
unfolding all_digits is_ascii_digit
plus_is_no_digit c s h = ground (arith, h)

parse_u16-digits :
    (s : Text) (n : ℕ)
    → 0 < length s
    → all_digits s ≡ true
    → decimal 0 s ≡ n
    → n < 2 ^ 16
    → parse_u16 s ≡ some n
unfolding parse_u16 parse_unsigned digits_value
parse_u16-digits [] n l h e b = absurd (omega arith)
parse_u16-digits (c ∷ s) n l h e b =
    rw (plus_is_no_digit c s h, parse_u16, parse_unsigned)
      (rw (h, digits_value) (rw (e, lt→ltb n (2 ^ 16) b) refl))

-- The octets of an address.
abbrev pub IsAddress : IpAddr → Type 0
IsAddress (v4 octets) = (length octets ≡ 4) × AreBytes octets
IsAddress (v6 octets) = (length octets ≡ 16) × AreBytes octets

-- A peer that there can be: a port is a u16, and an onion host ends in `.onion`.
abbrev pub IsDialable : Peer → Type 0
IsDialable (clearnet ip port) = IsAddress ip × (port < 2 ^ 16)
IsDialable (onion host port) = (ends_with (codes ".onion") host ≡ true) × (port < 2 ^ 16)

parse_onion-text :
    (host : Text) (port default_port : ℕ)
    → ends_with (codes ".onion") host ≡ true
    → port < 2 ^ 16
    → parse_onion (host ++ (codes ":" ++ digits 20 port)) default_port ≡ some (onion host port)
unfolding parse_onion
parse_onion-text host port default_port named d =
    let (some_digit, ds, value) = digits-Reads 19 port (omega arith) in
    rw (rsplit_once-append host (digits 20 port) ds, parse_onion)
      (rw (named, parse_u16-digits (digits 20 port) port some_digit ds value d) refl)

module _ (parse_socket : Text → Option (IpAddr × ℕ)) (show_socket : IpAddr → ℕ → Text) where
  -- Every peer is read back from its text, whatever the default port: given that the standard
  -- library reads a socket address back from its text, and takes no text of an onion host with a port for a
  -- socket address.
  pub parse_peer-show_peer :
      ((ip : IpAddr) (port : ℕ)
        → IsAddress ip
        → port < 2 ^ 16
        → parse_socket (show_socket ip port) ≡ some (ip, port))
      → ((host : Text) (port : ℕ)
          → ends_with (codes ".onion") host ≡ true
          → port < 2 ^ 16
          → parse_socket (host ++ (codes ":" ++ digits 20 port)) ≡ none)
      → (p : Peer) (default_port : ℕ) → IsDialable p
      → parse_peer parse_socket show_socket (show_peer parse_socket show_socket p) default_port
        ≡ some p
  unfolding parse_peer show_peer
  parse_peer-show_peer sockets onions (clearnet ip port) default_port d =
      rw (sockets ip port d.0 d.1, parse_peer) refl
  parse_peer-show_peer sockets onions (onion host port) default_port (named, d) =
      rw (onions host port named d, parse_peer) (parse_onion-text host port default_port named d)
