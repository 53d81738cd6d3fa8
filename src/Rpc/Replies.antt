-- ===== src/Rpc/Replies.antt =====
-- What the client reads out of the node's replies (src/rpc.rs: call, network_info, peer_info,
-- chain_tips, block_count, coinbase_tag, mempool_snapshot). JSON values are serde_json's; a field that
-- is missing or of another kind is `none`.
pub mod Auth
pub mod Fees
use bip110_crawler.Common.{
  ℕ, ◌+◌, ◌-◌, ◌*◌, ◌^◌, ◌%◌, Bool, true, false, not, List, [], ◌∷◌, ◌++◌, Option, none, some, ℤ,
  pos, negsuc, ltb, ◌==◌, to_digit_16, ltb_ℤ, leb_ℤ, if◌then◌else◌, Text, codes, ends_with, Result,
  ok, err, ◌>>=◌, rpc_failed, rpc_error, no_result, not_integer,
}
use bip110_crawler.Node.ChainSplit.{ChainTip}
use bip110_crawler.P2p.Peer.{Peer}
use bip110_crawler.P2p.Version.{i32_from_bits}
use bip110_crawler.Rpc.{unwrap_or}
use bip110_crawler.Rpc.Coinbase.{parse_coinbase_tag}

-- The object that answers a call.
pub record Reply (Json : Type 0) : Type 0 where
  pub error : Option Json
  pub result : Option Json

module _ {Json : Type 0} (is_null : Json → Bool) where
  unfoldable pub result_of : Reply Json → Result Json
  result_of value = elim value.result [ none ↦ err no_result | some v ↦ ok v ]

  -- `call`, on what the HTTP client brought: an answer, or a failure.
  unfoldable pub call : Option (Reply Json) → Result Json
  unfolding result_of
  call none = err rpc_failed
  call (some value) = elim value.error [
    | none ↦ result_of value
    | some e ↦ if not (is_null e) then err rpc_error else result_of value
  ]

-- One entry of `localaddresses`.
pub record LocalAddress : Type 0 where
  pub address : Option Text
  pub score : Option ℤ

pub record NetworkReply : Type 0 where
  pub version : Option ℤ
  pub subversion : Option Text
  pub localservices : Option Text
  pub localaddresses : Option (List LocalAddress)

unfoldable pub public_addresses : List LocalAddress → List (ℤ × Text)
unfolding ends_with
public_addresses [] = []
public_addresses (a ∷ addrs) = elim a.address [
  | none ↦ public_addresses addrs
  | some addr ↦
      if ends_with (codes ".onion") addr
      then public_addresses addrs
      else (unwrap_or (pos 0) a.score, addr) ∷ public_addresses addrs
]

-- `max_by_key`: the last of the greatest.
unfoldable pub best_address : List (ℤ × Text) → Option (ℤ × Text) → Option (ℤ × Text)
best_address [] best = best
best_address ((score, addr) ∷ addrs) none = best_address addrs (some (score, addr))
best_address ((score, addr) ∷ addrs) (some (top, kept)) =
    best_address addrs (if leb_ℤ top score then some (score, addr) else some (top, kept))

pub record NetworkInfo : Type 0 where
  pub version : ℤ
  pub subversion : Text
  pub services : ℕ
  pub local_addr : Option Text

abbrev text_of : Option (ℤ × Text) → Option Text
text_of none = none
text_of (some (score, addr)) = some addr

-- `u64::from_str_radix(_, 16)`: a `+` may stand first, there is a digit, and the value is a u64.
unfoldable pub hex_value : ℕ → Text → Option ℕ
hex_value acc [] = some acc
hex_value acc (c ∷ s) = elim (to_digit_16 c) [
  | none ↦ none
  | some d ↦
      let rest = hex_value (acc * 16 + d) s in if ltb (acc * 16 + d) (2 ^ 64) then rest else none
]

unfoldable pub from_hex : Text → Option ℕ
unfolding hex_value
from_hex [] = none
from_hex (c ∷ []) = hex_value 0 (c ∷ [])
from_hex (c ∷ d ∷ s) = if c == b'+' then hex_value 0 (d ∷ s) else hex_value 0 (c ∷ d ∷ s)

unfoldable pub network_info : Result NetworkReply → Result NetworkInfo
unfolding public_addresses best_address from_hex
network_info reply = reply >>= λ r. ok (record {
  version = unwrap_or (pos 0) r.version;
  subversion = unwrap_or [] r.subversion;
  services = elim r.localservices [ none ↦ 0 | some s ↦ unwrap_or 0 (from_hex s) ];
  local_addr = text_of (best_address (public_addresses (unwrap_or [] r.localaddresses)) none);
})

pub record PeerReply : Type 0 where
  pub addr : Option Text
  pub subver : Option Text
  pub version : Option ℤ
  pub startingheight : Option ℤ

pub record RpcPeer : Type 0 where
  pub peer : Peer
  pub subver : Text
  pub version : ℤ
  pub height : ℤ

-- `i64 as i32`: the low 32 bits.
unfoldable pub as_i32 : ℤ → ℤ
as_i32 (pos n) = i32_from_bits (n % 2 ^ 32)
as_i32 (negsuc n) = i32_from_bits (2 ^ 32 - 1 - n % 2 ^ 32)

module _ (parse : Text → ℕ → Option Peer) where
  unfoldable pub peers_of : List PeerReply → List RpcPeer
  peers_of [] = []
  peers_of (p ∷ ps) = elim (parse (unwrap_or [] p.addr) 8333) [
    | none ↦ peers_of ps
    | some peer ↦
        record {
          peer = peer;
          subver = unwrap_or [] p.subver;
          version = as_i32 (unwrap_or (pos 0) p.version);
          height = as_i32 (unwrap_or (pos 0) p.startingheight);
        }
        ∷ peers_of ps
  ]

  unfoldable pub peer_info : Result (Option (List PeerReply)) → Result (List RpcPeer)
  unfolding peers_of
  peer_info reply = reply >>= λ r. ok (peers_of (unwrap_or [] r))

pub record TipReply : Type 0 where
  pub height : Option ℤ
  pub hash : Option Text
  pub branchlen : Option ℤ
  pub status : Option Text

unfoldable pub tips_of : List TipReply → List ChainTip
tips_of [] = []
tips_of (t ∷ ts) =
    record {
      height = unwrap_or (pos 0) t.height;
      hash = unwrap_or [] t.hash;
      branchlen = unwrap_or (pos 0) t.branchlen;
      status = unwrap_or [] t.status;
    }
    ∷ tips_of ts

unfoldable pub chain_tips : Result (Option (List TipReply)) → Result (List ChainTip)
unfolding tips_of
chain_tips reply = reply >>= λ r. ok (tips_of (unwrap_or [] r))

unfoldable pub as_integer : Option ℤ → Result ℤ
as_integer none = err not_integer
as_integer (some n) = ok n

unfoldable pub block_count : Result (Option ℤ) → Result ℤ
unfolding as_integer
block_count reply = reply >>= as_integer

-- The reply is the `coinbase` of the first input, if it is a text.
unfoldable pub coinbase_tag : Result (Option Text) → Result Text
coinbase_tag reply = reply >>= λ sig. ok (parse_coinbase_tag (unwrap_or [] sig))
