-- ===== src/Cycle/Finish/Completes.antt =====
-- What a finished cycle leaves: the report, the store and the history (src/main.rs).
use bip110_crawler.Common.{
  ℕ, ◌≤◌, ◌≡◌, ◌⊎◌, refl, Bool, true, not, list_eq, List, [], Option, none, some, length, All, Text,
  Result, ok, err,
}
use bip110_crawler.Node.{NodeInfo, Edge}
use bip110_crawler.Node.Aggregates.{from_nodes}
use bip110_crawler.Rpc.Signalling.{SignalStats}
use bip110_crawler.History.{History, get}
use bip110_crawler.History.Merge.{Carries, merge-Carries}
use bip110_crawler.History.Merge.Addresses.{merge-known}
use bip110_crawler.Db.Nodes.{NodeRecord, find_row}
use bip110_crawler.Db.Nodes.Keeps.{Keeps}
use bip110_crawler.Db.Snapshot.{Db}
use bip110_crawler.Db.Snapshot.Persists.{write_snapshot-Keeps}
use bip110_crawler.Db.Report.{ReportData, or_else}
use bip110_crawler.Db.Report.Shown.{IsShown}
use bip110_crawler.Cycle.Assemble.{splice_own, placeholder}
use bip110_crawler.Cycle.Assemble.Closed.{IsNode, splice_own-IsNode}
use bip110_crawler.Cycle.Snapshot.{Captured, Outside, locate_nodes, write_db}
use bip110_crawler.Cycle.Snapshot.Reported.{site_report-Reports}
use bip110_crawler.Cycle.Finish.{accumulate, finish_cycle}

-- The nodes of a history are none of them the placeholder.
abbrev pub HasNodes : Option (Result History) → Type 0
HasNodes (some (ok h)) = All (λ (e : Text × NodeInfo). IsNode e.1) h
HasNodes history = Unit {0}

-- The history to save has every node of the one that was read, seen at least as often and with its first
-- sighting; without one that was read, nothing is saved.
abbrev pub Continues : Option (Result History) → Option History → Type 0
Continues (some (ok h)) (some h') =
    (addr : Text) (r : NodeInfo)
    → get addr h ≡ some r
    → (r' : NodeInfo) × (get addr h' ≡ some r') × Carries r r'
Continues (some (ok h)) none = ⊥
Continues history saved = saved ≡ none

accumulate-Continues :
    (history : Option (Result History)) (now : Text) (nodes : List NodeInfo)
    → Continues history (accumulate history now nodes).1
unfolding accumulate
accumulate-Continues none now nodes = refl
accumulate-Continues (some (err e)) now nodes = refl
accumulate-Continues (some (ok h)) now nodes = λ addr r e. merge-Carries h nodes now addr r e

accumulate-IsNode :
    (history : Option (Result History)) (now : Text) (nodes : List NodeInfo)
    → HasNodes history
    → All IsNode nodes
    → All IsNode (accumulate history now nodes).0
unfolding accumulate
accumulate-IsNode none now nodes h a = a
accumulate-IsNode (some (err e)) now nodes h a = a
accumulate-IsNode (some (ok hist)) now nodes h a =
    merge-known (λ addr. not (list_eq addr placeholder) ≡ true) hist nodes now h a

-- A finished cycle.
pub record Completes {F : Type 0} (c : Captured) (history : Option (Result History)) (before : Db F)
    (after : Db F × Option History × ReportData F) : Type 0 where
  pub few : (c.report_max ≡ 0) ⊎ (length after.2.nodes ≤ c.report_max)
  pub online : All (λ n. n.online ≡ true) after.2.nodes
  pub shown : All (IsShown after.2.nodes) after.2.edges
  pub counted : after.2.aggregates ≡ from_nodes after.2.nodes
  pub kept :
      (addr : Text) (old : NodeRecord F)
      → find_row addr before.nodes ≡ some old
      → (new : NodeRecord F) × (find_row addr after.0.nodes ≡ some new) × Keeps old new
  pub continued : Continues history after.1

module _ {F : Type 0} (out : Outside F) (secs : ℕ) (now : Text) (c : Captured) (live : Bool)
    (history : Option (Result History)) (signalling : Option SignalStats) (nodes : List NodeInfo)
    (edges : List Edge) (db : Db F) where
  -- The end of a cycle, composed of the own node, the history, the geolocation, the write to the store and the
  -- report: no more nodes are shown than the bound, if there is one; every shown node is reachable; every shown
  -- edge has both its ends shown; the aggregates are those of the shown nodes; every node that the store had
  -- keeps its row, in which a first sighting, a handshake, coordinates and a latency that are known stay known; and
  -- every node of the history that was read is in the one that is saved, seen at least as often and with its first
  -- sighting, where nothing is saved unless a history was read. It is assumed that neither the record of our own
  -- node nor any of the history has the address of the placeholder.
  pub finish_cycle-Completes :
      ((own : NodeInfo) → c.own_info ≡ some own → IsNode own)
      → HasNodes history
      → Completes c history db
          (finish_cycle out secs now c live history signalling (nodes, edges) db)
  unfolding finish_cycle write_db
  finish_cycle-Completes own_ok h =
      let graph = splice_own c.own_info c.own_edges (nodes, edges) in
      let known = (accumulate history now graph.0).0 in
      let geo = locate_nodes out c known in
      let (few, online, shown, counted) =
        site_report-Reports out c now signalling geo (known, graph.1)
          (accumulate-IsNode history now graph.0 h
            (splice_own-IsNode c.own_info c.own_edges (nodes, edges) own_ok)) in
      record {
        few = few;
        online = online;
        shown = shown;
        counted = counted;
        kept = λ addr old found.
            let (new, there, keeps, same) =
              (write_snapshot-Keeps secs now c.network (out.own_to_json c.report_own)
                (out.signalling_to_json signalling) known graph.1 (or_else [] geo) db addr old
                found).0 in
            (new, there, keeps);
        continued = accumulate-Continues history now graph.0;
      }
