-- ===== src/Crawler/System/Ends/Costs.antt =====
-- What the workers still cost, and what a notification adds (src/crawler.rs).
use bip110_crawler.Common.{
  ℕ, suc, ◌+◌, ◌≤◌, ◌≡◌, Bool, true, false, ◌||◌, List, [], ◌∷◌, ◌++◌, length, length-map,
  if◌then◌else◌, arith,
}
use bip110_crawler.Crawler.Tasks.{Wake}
use bip110_crawler.Crawler.System.{
  Pc, polling, waiting, holding, dialing, expanding, finishing, exited, Worker, woken, notify,
}
use bip110_crawler.Crawler.System.Ends.Measure.{load}

-- The cost of what a worker stands before, for `n` workers: the steps up to its next poll, with the polls
-- of those that it wakes.
abbrev pub cost : ℕ → Pc → ℕ
cost n polling = n + 2
cost n waiting = n + 1
cost n (holding t) = n + 1 + (n + 5)
cost n (dialing t) = n + 1 + (n + 4)
cost n (expanding t discovered) = n + 1 + (n + 3)
cost n (finishing nc ns) = n + 1 + (n + 2) + (load (n + 5) nc + load (n + 5) ns)
cost n exited = 0

abbrev pub costs : ℕ → List Worker → ℕ
costs n [] = 0
costs n (w ∷ ws) = cost n w.pc + costs n ws

pub costs-append : (n : ℕ) (xs ys : List Worker) → costs n (xs ++ ys) ≡ costs n xs + costs n ys
costs-append n [] ys = omega arith
costs-append n (x ∷ xs) ys = omega (arith, costs-append n xs ys)

cost-woken : (n : ℕ) (b : Bool) (pc : Pc) → cost n (woken b pc) ≤ cost n pc + 1
cost-woken n true waiting = omega arith
cost-woken n false waiting = omega arith
cost-woken n b pc = omega arith

-- What a notification adds for each worker.
abbrev pub gain : Wake → ℕ → ℕ
gain wake k = if wake.clearnet || wake.onion then k else 0

cost-wake :
    (n : ℕ) (wake : Wake) (op : Bool) (pc : Pc)
    → cost n (woken (if op then wake.onion else wake.clearnet) pc) ≤ cost n pc + gain wake 1
cost-wake n wake op pc = ground (arith, cost-woken n (if op then wake.onion else wake.clearnet) pc)

pub gain_bounds : (wake : Wake) (k : ℕ) → gain wake k ≤ k
gain_bounds wake k = ground arith

gain-suc : (wake : Wake) (k : ℕ) → gain wake 1 + gain wake k ≡ gain wake (suc k)
gain-suc wake k = ground arith

pub gain-add : (wake : Wake) (a b c : ℕ) → a + suc b ≡ c → gain wake a + gain wake b ≤ gain wake c
gain-add wake a b c h = ground arith

pub costs-notify :
    (n : ℕ) (wake : Wake) (ws : List Worker)
    → costs n (notify wake ws) ≤ costs n ws + gain wake (length ws)
costs-notify n wake [] = omega arith
costs-notify n wake (w ∷ ws) =
    omega
      (arith, cost-wake n wake w.onion_pool w.pc, costs-notify n wake ws, gain-suc wake (length ws))

pub length-notify : (wake : Wake) (ws : List Worker) → length (notify wake ws) ≡ length ws
length-notify wake ws = length-map ws _
