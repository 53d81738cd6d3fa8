-- ===== src/Serve/InFlight.antt =====
-- The limit on requests in flight (src/serve.rs: serve). The dispatcher threads and the request
-- threads share one atomic counter; a step is one atomic operation and what its thread does up to the
-- next one. A request thread is counted as running until its `fetch_sub`, and its panic is no step.
pub mod Limit
use bip110_crawler.Common.{
  ℕ, ◌+◌, ◌-◌, ◌<◌, ◌≡◌, List, [], ◌∷◌, ◌++◌, if◌then◌else◌, leb, replicate,
}

-- MAX_IN_FLIGHT, and the number of dispatcher threads.
abbrev pub max_in_flight : ℕ
max_in_flight = 64

abbrev pub dispatchers : ℕ
dispatchers = 4

-- A dispatcher waits in `recv`, or has counted its request: to spawn a thread for it, or to take
-- the count back and answer 503.
pub data Dispatcher : Type 0 where
  receiving admitting refusing : Dispatcher

pub record Server : Type 0 where
  pub in_flight : ℕ
  pub running : ℕ
  pub threads : List Dispatcher

-- `fetch_add(1) >= MAX_IN_FLIGHT`, on the value before the addition.
unfoldable pub admit : ℕ → Dispatcher
admit before = if leb max_in_flight before then refusing else admitting

abbrev pub started : Server
started = record { in_flight = 0; running = 0; threads = replicate dispatchers receiving }

pub data Step : Server → Server → Type 0 where
  receive :
      {n r : ℕ} (pre post : List Dispatcher)
      → Step
          (record { in_flight = n; running = r; threads = pre ++ receiving ∷ post })
          (record { in_flight = n + 1; running = r; threads = pre ++ admit n ∷ post })
  spawn :
      {n r : ℕ} (pre post : List Dispatcher)
      → Step
          (record { in_flight = n; running = r; threads = pre ++ admitting ∷ post })
          (record { in_flight = n; running = r + 1; threads = pre ++ receiving ∷ post })
  refuse :
      {n r : ℕ} (pre post : List Dispatcher)
      → Step
          (record { in_flight = n; running = r; threads = pre ++ refusing ∷ post })
          (record { in_flight = n - 1; running = r; threads = pre ++ receiving ∷ post })
  finish :
      {n r : ℕ} {ts : List Dispatcher}
      → 0 < r
      → Step
          (record { in_flight = n; running = r; threads = ts })
          (record { in_flight = n - 1; running = r - 1; threads = ts })

pub data Reach : Server → Type 0 where
  start : Reach started
  next : {s t : Server} → Reach s → Step s t → Reach t
