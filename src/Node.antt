-- ===== src/Node.antt =====
-- src/node.rs: the data model of a discovered node. Its children hold the classification, the
-- chain-split assessment and the aggregates.
pub mod UserAgent
pub mod Latency
pub mod ChainSplit
pub mod Aggregates
use bip110_crawler.Common.{ℕ, Bool, List, Option, Text, ℤ}

pub data Stance : Type 0 where
  enforcing not_enforcing unknown : Stance

pub record NodeInfo : Type 0 where
  pub addr : Text
  pub depth : ℕ
  pub protocol_version : ℤ
  pub user_agent : Text
  pub services : ℕ
  pub start_height : ℤ
  pub chain_hash : Text
  pub handshaked : Bool
  pub implementation : Text
  pub version : Text
  pub bip110 : Stance
  pub first_seen : Text
  pub last_seen : Text
  pub times_seen : ℕ
  pub online : Bool
  pub latency_ms : Option ℕ

pub record Edge : Type 0 where
  pub from : Text
  pub to : Text

pub record Rule : Type 0 where
  pub user_agent_contains : Text
  pub stance : Stance
