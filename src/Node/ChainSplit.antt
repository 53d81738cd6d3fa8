-- ===== src/Node/ChainSplit.antt =====
-- The chain-split assessment (src/node.rs: `assess_chain_split`; src/rpc.rs: `ChainTip`). The
-- `BTreeMap` of cluster sizes is a list of entries; only their sizes and number are used. A u32 that
-- counts peers is an unbounded number here.
pub mod Clusters
pub mod Large
pub mod Verdict
use bip110_crawler.Common.{
  ℕ, ◌+◌, Bool, true, false, not, ◌&&◌, ◌||◌, List, [], ◌∷◌, if◌then◌else◌, ltb, leb, ◌==◌, length,
  get_or, map, count, sort_descending, list_eq, Text, codes, ℤ, pos, ◌-ℤ◌, ltb_ℤ, leb_ℤ, abs,
}
use bip110_crawler.Node.{NodeInfo}
use bip110_crawler.Crawler.Tasks.{is_empty}

pub record ChainTip : Type 0 where
  pub height : ℤ
  pub hash : Text
  pub branchlen : ℤ
  pub status : Text

-- A branch that is not the active one.
pub record ForkTip : Type 0 where
  pub height : ℤ
  pub branchlen : ℤ
  pub status : Text

pub record ChainSplit : Type 0 where
  pub split : Bool
  pub active_height : ℤ
  pub forks : List ForkTip
  pub longest_fork : ℤ
  pub rejected_branches : ℕ
  pub responded : ℕ
  pub distinct_chains : ℕ
  pub largest_chain : ℕ
  pub second_chain : ℕ

-- MIN_REJECTED_FORK_LEN, REJECT_RECENCY and MIN_SPLIT_CLUSTER
abbrev pub min_rejected_fork_len : ℤ
min_rejected_fork_len = pos 1

abbrev pub reject_recency : ℕ
reject_recency = 2016

abbrev pub min_split_cluster : ℕ
min_split_cluster = 10

unfoldable pub active_height : List ChainTip → ℤ
active_height [] = pos 0
active_height (t ∷ tips) =
    if list_eq t.status (codes "active") then t.height else active_height tips

unfoldable pub forks_of : List ChainTip → List ForkTip
forks_of [] = []
forks_of (t ∷ tips) =
    if ltb_ℤ (pos 0) t.branchlen
    then record { height = t.height; branchlen = t.branchlen; status = t.status } ∷ forks_of tips
    else forks_of tips

-- The longest branch, or 0: branches are longer than 0.
longest : List ForkTip → ℤ
longest [] = pos 0
longest (f ∷ forks) = if ltb_ℤ (longest forks) f.branchlen then f.branchlen else longest forks

unfoldable pub is_rejected : ℤ → ForkTip → Bool
is_rejected active f =
    list_eq f.status (codes "invalid")
    && leb_ℤ min_rejected_fork_len f.branchlen
    && (is_zero active || leb (abs (active -ℤ f.height)) reject_recency)
  where
    is_zero : ℤ → Bool
    is_zero n = leb_ℤ n (pos 0) && leb_ℤ (pos 0) n

-- A peer that told its block hash at the reference height.
unfoldable pub is_respondent : NodeInfo → Bool
is_respondent n = n.handshaked && not (is_empty n.chain_hash)

-- `*counts.entry(hash).or_insert(0) += 1`
unfoldable pub add_one : Text → List (Text × ℕ) → List (Text × ℕ)
add_one hash [] = (hash, 1) ∷ []
add_one hash ((h, n) ∷ counts) =
    if list_eq h hash then (h, n + 1) ∷ counts else (h, n) ∷ add_one hash counts

unfoldable pub cluster : List NodeInfo → List (Text × ℕ) → List (Text × ℕ)
unfolding add_one is_respondent
cluster [] counts = counts
cluster (n ∷ peers) counts =
    cluster peers (if is_respondent n then add_one n.chain_hash counts else counts)

abbrev pub sizes_of : List (Text × ℕ) → List ℕ
sizes_of [] = []
sizes_of ((h, n) ∷ counts) = n ∷ sizes_of counts

abbrev pub sum : List ℕ → ℕ
sum [] = 0
sum (n ∷ ns) = n + sum ns

unfoldable pub assess_chain_split : List ChainTip → List NodeInfo → ChainSplit
unfolding active_height forks_of longest is_rejected cluster
assess_chain_split tips peers =
    let active = active_height tips in
    let forks = forks_of tips in
    let rejected = count (is_rejected active) forks in
    let counts = cluster peers [] in
    let sizes = sort_descending (sizes_of counts) in
    let second = get_or sizes 1 0 in
    record {
      split = ltb 0 rejected || leb min_split_cluster second;
      active_height = active;
      forks = forks;
      longest_fork = longest forks;
      rejected_branches = rejected;
      responded = sum (sizes_of counts);
      distinct_chains = length counts;
      largest_chain = get_or sizes 0 0;
      second_chain = second;
    }
