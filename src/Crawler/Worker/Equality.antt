-- ===== src/Crawler/Worker/Equality.antt =====
-- The comparison of peers decides equality (src/crawler.rs).
use bip110_crawler.Common.{◌≡◌, refl, ap, true, ==_refl, list_eq→eq, list_eq_refl, arith}
use bip110_crawler.P2p.Peer.{IpAddr, v4, v6, Peer}
use bip110_crawler.Crawler.Worker.{ip_eq, peer_eq}

ip_eq→eq : (a b : IpAddr) → ip_eq a b ≡ true → a ≡ b
unfolding ip_eq
ip_eq→eq (v4 a) (v4 b) e = ap v4 (list_eq→eq a b e)
ip_eq→eq (v6 a) (v6 b) e = ap v6 (list_eq→eq a b e)
ip_eq→eq (v4 a) (v6 b) e = absurd (cc)
ip_eq→eq (v6 a) (v4 b) e = absurd (cc)

ip_eq_refl : (a : IpAddr) → ip_eq a a ≡ true
unfolding ip_eq
ip_eq_refl (v4 a) = list_eq_refl a
ip_eq_refl (v6 a) = list_eq_refl a

pub peer_eq→eq : (a b : Peer) → peer_eq a b ≡ true → a ≡ b
unfolding peer_eq
peer_eq→eq (Peer.clearnet a p) (Peer.clearnet b q) e = ground (arith, ip_eq→eq a b)
peer_eq→eq (Peer.onion a p) (Peer.onion b q) e = ground (arith, list_eq→eq a b)
peer_eq→eq (Peer.clearnet a p) (Peer.onion b q) e = absurd (cc)
peer_eq→eq (Peer.onion a p) (Peer.clearnet b q) e = absurd (cc)

pub peer_eq_refl : (a : Peer) → peer_eq a a ≡ true
unfolding peer_eq
peer_eq_refl (Peer.clearnet a p) = rw (ip_eq_refl a, ==_refl p) refl
peer_eq_refl (Peer.onion a p) = rw (list_eq_refl a, ==_refl p) refl
