-- ===== src/Crawler/Tasks.antt =====
-- The frontier's two operations (src/crawler.rs: `next_task`, `finish_task`), each under its lock.
use bip110_crawler.Common.{
  ◌+◌, ◌-◌, Bool, true, false, not, ◌&&◌, List, [], ◌∷◌, ◌++◌, if◌then◌else◌, ◌==◌,
}
use mathlib.Core.List.{reverse}
use bip110_crawler.Crawler.{Task, Frontier}

unfoldable pub is_empty {ℓ} : {A : Type ℓ} → List A → Bool
is_empty [] = true
is_empty (x ∷ xs) = false

-- The condition variables that are notified.
pub record Wake : Type 0 where
  pub clearnet : Bool
  pub onion : Bool

abbrev pub wake_all : Wake
wake_all = record { clearnet = true; onion = true }

abbrev pub wake_none : Wake
wake_none = record { clearnet = false; onion = false }

-- Both stacks empty and no worker busy.
unfoldable pub is_finished : Frontier → Bool
unfolding is_empty
is_finished f = is_empty f.clearnet && is_empty f.onion && f.active == 0

-- The outcome of one round of the loop in `next_task`.
pub data Next : Type 0 where
  got : Task → Frontier → Next
  finished : Next
  wait : Next

idle_next : Frontier → Next
idle_next f = if is_finished f then finished else wait

next_clearnet : List Task → Frontier → Next
next_clearnet [] f = idle_next f
next_clearnet (t ∷ ts) f = got t (record f { clearnet = ts; active = f.active + 1 })

next_onion : List Task → Frontier → Next
next_onion [] f = idle_next f
next_onion (t ∷ ts) f = got t (record f { onion = ts; active = f.active + 1 })

unfoldable pub next_task : Bool → Frontier → Next
unfolding next_clearnet next_onion idle_next is_finished
next_task onion_pool f = if onion_pool then next_onion f.onion f else next_clearnet f.clearnet f

-- `Vec::extend` at the end of a stack.
unfoldable pub extend : List Task → List Task → List Task
extend stack new = reverse new ++ stack

unfoldable pub finished_frontier : Frontier → List Task → List Task → Frontier
unfolding extend
finished_frontier f new_clearnet new_onion = record {
  clearnet = extend f.clearnet new_clearnet;
  onion = extend f.onion new_onion;
  active = f.active - 1;
}

-- The new frontier, and whom `finish_task` notifies.
unfoldable pub finish_task : Frontier → List Task → List Task → Frontier × Wake
unfolding finished_frontier is_finished is_empty
finish_task f new_clearnet new_onion =
    let f' = finished_frontier f new_clearnet new_onion in
    (
      f',
      if is_finished f'
          then wake_all
          else record { clearnet = not (is_empty new_clearnet); onion = not (is_empty new_onion) },
    )
