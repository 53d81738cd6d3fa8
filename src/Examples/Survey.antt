-- ===== src/Examples/Survey.antt =====
-- The node statistics, the history and the block analysis at concrete inputs (src/node.rs,
-- src/history.rs, src/rpc.rs).
use bip110_crawler.Common.{
  ℕ, ◌≡◌, ◌↔◌, ◌⊎◌, refl, true, false, List, [], ◌∷◌, ◌++◌, none, some, replicate, sort_by, Text,
  codes, pos,
}
use bip110_crawler.Node.{NodeInfo, Stance}
use bip110_crawler.Node.Latency.{tally, bump, band_index, bucket_loop, latency_histogram}
use bip110_crawler.Node.ChainSplit.{ChainTip, min_split_cluster, assess_chain_split}
use bip110_crawler.Node.ChainSplit.Clusters.{support}
use bip110_crawler.Node.ChainSplit.Large.{TwoLarge}
use bip110_crawler.Node.ChainSplit.Verdict.{RejectedTip, assess_chain_split-split}
use bip110_crawler.History.{History, get, merge, has_addr}
use bip110_crawler.History.Merge.{Reported, merge-Reported}
use bip110_crawler.Rpc.Transactions.{Tx}
use bip110_crawler.Rpc.Payload.Rules.{BreaksRule, rejects, is_rejected-BreaksRule}
use bip110_crawler.Rpc.Payload.Totals.{Totals}

abbrev measured : List ℕ
measured = 30 ∷ 60 ∷ 70 ∷ 5000 ∷ []

-- The histogram of the four measurements, as the source's test has it.
measured_buckets : latency_histogram measured ≡ (
  record { min_ms = 0; max_ms = some 50; count = 1 }
      ∷ record { min_ms = 50; max_ms = some 100; count = 2 }
      ∷ record { min_ms = 3000; max_ms = none; count = 1 }
      ∷ [],
  some 70,
)
unfolding latency_histogram tally bump band_index bucket_loop sort_by
measured_buckets = refl

abbrev peer_on : Text → NodeInfo
peer_on hash = record {
  addr = hash;
  depth = 0;
  protocol_version = pos 70016;
  user_agent = codes "/Satoshi:29.0.0/";
  services = 0;
  start_height = pos 0;
  chain_hash = hash;
  handshaked = true;
  implementation = codes "Bitcoin Core";
  version = [];
  bip110 = Stance.unknown;
  first_seen = codes "then";
  last_seen = [];
  times_seen = 3;
  online = true;
  latency_ms = none;
}

abbrev tips : List ChainTip
tips =
    record { height = pos 900; hash = []; branchlen = pos 0; status = codes "active" }
    ∷ record { height = pos 890; hash = []; branchlen = pos 2; status = codes "invalid" }
    ∷ []

assess_chain_split-split_example :
    ((assess_chain_split tips (peer_on (codes "aa") ∷ [])).split ≡ true)
    ↔ (RejectedTip tips ⊎ TwoLarge min_split_cluster (λ h. support h (peer_on (codes "aa") ∷ [])))
assess_chain_split-split_example = assess_chain_split-split tips (peer_on (codes "aa") ∷ [])

-- A store with one node, `a`, and a crawl that met another, `b`.
abbrev store : History
store = (codes "a", peer_on (codes "a")) ∷ []

merge-Reported_example :
    (r : NodeInfo) × (get (codes "b") (merge store (peer_on (codes "b") ∷ []) (codes "now"))
      ≡ some r)
    × Reported (codes "now") (peer_on (codes "b")) r
unfolding has_addr
merge-Reported_example = merge-Reported store [] (peer_on (codes "b")) [] (codes "now") refl

-- A transaction with an OP_RETURN of 84 bytes.
abbrev big_op_return : Tx
big_op_return = record {
  vin = some (record { coinbase = false; txinwitness = none } ∷ []);
  weight = some (pos 600);
  vout = some (some (codes "6a" ++ replicate 166 b'0') ∷ []);
}

is_rejected-BreaksRule_example : (rejects big_op_return ≡ true) ↔ BreaksRule big_op_return
is_rejected-BreaksRule_example = is_rejected-BreaksRule big_op_return
