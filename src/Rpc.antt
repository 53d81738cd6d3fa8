-- ===== src/Rpc.antt =====
-- src/rpc.rs: what is computed from the node's JSON-RPC replies. The replies' JSON is serde_json's:
-- a value that is missing or of another kind is `none`.
pub mod Transactions
pub mod Payload
pub mod Coinbase
pub mod Signalling
pub mod Blocks
pub mod Replies
use bip110_crawler.Common.{Option, none, some}

abbrev pub unwrap_or {ℓ} : {A : Type ℓ} → A → Option A → A
unwrap_or d none = d
unwrap_or d (some a) = a
