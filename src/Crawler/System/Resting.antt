-- ===== src/Crawler/System/Resting.antt =====
-- Busy workers, and what a worker that waits or has left says of the frontier: kept by every
-- operation of src/crawler.rs's frontier.
use bip110_crawler.Common.{
  ℕ, ◌+◌, ◌≤◌, ◌≡◌, inl, inr, refl, ◌∙◌, Bool, true, false, not, List, [], ◌∷◌, ◌++◌, if◌then◌else◌,
  Bool-cases, arith,
}
use bip110_crawler.Crawler.{Task, Frontier}
use bip110_crawler.Crawler.Tasks.{
  Wake, wake_all, got, finished, wait, next_task, finished_frontier, finish_task, is_finished,
  is_empty,
}
use bip110_crawler.Crawler.System.{Pc, polling, waiting, exited, Worker, woken, wake_worker, notify}

-- 1 for a worker between `next_task` and the end of `finish_task`.
abbrev pub busy_pc : Pc → ℕ
busy_pc polling = 0
busy_pc waiting = 0
busy_pc exited = 0
busy_pc _ = 1

abbrev pub busy : List Worker → ℕ
busy [] = 0
busy (w ∷ ws) = busy_pc w.pc + busy ws

abbrev pub stack_of : Bool → Frontier → List Task
stack_of onion_pool f = if onion_pool then f.onion else f.clearnet

-- What a worker that stands still says of the frontier.
abbrev pub Rests : Frontier → Bool → Pc → Type 0
Rests f onion_pool waiting = (stack_of onion_pool f ≡ []) × (is_finished f ≡ false)
Rests f onion_pool exited = is_finished f ≡ true
Rests f onion_pool _ = Unit {0}

abbrev pub WorkerRests : Frontier → Worker → Type 0
WorkerRests f w = Rests f w.onion_pool w.pc

pub busy-append : (xs ys : List Worker) → busy (xs ++ ys) ≡ busy xs + busy ys
busy-append [] ys = omega arith
busy-append (x ∷ xs) ys = omega (arith, busy-append xs ys)

pub busy_pc-woken : (b : Bool) (pc : Pc) → busy_pc (woken b pc) ≡ busy_pc pc
busy_pc-woken true waiting = refl
busy_pc-woken false waiting = refl
busy_pc-woken b pc = refl

pub busy-notify : (wake : Wake) (ws : List Worker) → busy (notify wake ws) ≡ busy ws
busy-notify wake [] = refl
busy-notify wake (w ∷ ws) = omega (
  arith,
  busy-notify wake ws,
  busy_pc-woken (if w.onion_pool then wake.onion else wake.clearnet) w.pc,
)

Rests-woken : (f : Frontier) (op b : Bool) (pc : Pc) → Rests f op pc → Rests f op (woken b pc)
Rests-woken f op true waiting r = tt
Rests-woken f op false waiting r = r
Rests-woken f op b pc r = r

pub undisturbed :
    (f : Frontier) (wake : Wake) (w : Worker) → WorkerRests f w → WorkerRests f (wake_worker wake w)
undisturbed f wake w r =
    Rests-woken f w.onion_pool (if w.onion_pool then wake.onion else wake.clearnet) w.pc r

pub took :
    (op : Bool) (f f' : Frontier) (t : Task) → next_task op f ≡ got t f' → f'.active ≡ f.active + 1
unfolding next_task
took op f f' t e = ground arith

pub took-Rests :
    (op : Bool) (f f' : Frontier) (t : Task)
    → next_task op f ≡ got t f'
    → (op2 : Bool) (pc : Pc) → Rests f op2 pc
    → Rests f' op2 pc
unfolding next_task
took-Rests op f f' t e op2 waiting r = ground arith
took-Rests op f f' t e op2 exited r = ground arith
took-Rests op f f' t e op2 polling r = tt
took-Rests op f f' t e op2 pc r = tt

pub left : (op : Bool) (f : Frontier) → next_task op f ≡ finished → is_finished f ≡ true
unfolding next_task
left op f e = ground arith

pub slept :
    (op : Bool) (f : Frontier)
    → next_task op f ≡ wait
    → (stack_of op f ≡ []) × (is_finished f ≡ false)
unfolding next_task
slept op f e = ground arith

finished-active : (f : Frontier) → is_finished f ≡ true → f.active ≡ 0
unfolding is_finished
finished-active f e = ground arith

is_empty-nil : (ts : List Task) → is_empty ts ≡ true → ts ≡ []
unfolding is_empty
is_empty-nil [] e = refl
is_empty-nil (t ∷ ts) e = absurd (cc)

module _ (f : Frontier) (new_clearnet new_onion : List Task) where
  abbrev pub after : Frontier
  after = finished_frontier f new_clearnet new_onion

  abbrev pub wakes : Wake
  wakes =
      if is_finished after
      then wake_all
      else record { clearnet = not (is_empty new_clearnet); onion = not (is_empty new_onion) }

  pub finish_task_lem : finish_task f new_clearnet new_onion ≡ (after, wakes)
  unfolding finish_task
  finish_task_lem = refl

  -- A stack to which nothing is added is left alone.
  kept_stack :
      (op : Bool)
      → (if op then not (is_empty new_onion) else not (is_empty new_clearnet)) ≡ false
      → stack_of op after ≡ stack_of op f
  unfolding finished_frontier
  kept_stack true e = rw (is_empty-nil new_onion (ground arith)) refl
  kept_stack false e = rw (is_empty-nil new_clearnet (ground arith)) refl

  pub finished-Rests :
      (op : Bool) (pc : Pc)
      → 1 ≤ f.active
      → Rests f op pc
      → Rests after op (woken (if op then wakes.onion else wakes.clearnet) pc)
  finished-Rests op waiting b (e, u) = elim (Bool-cases (is_finished after)) [
    | inl done ↦ rw done (woke op)
    | inr more ↦
        rw more
          (elim (Bool-cases
            (if op then not (is_empty new_onion) else not (is_empty new_clearnet))) [
              | inl fresh ↦ rw fresh tt
              | inr none_ ↦ rw none_ (kept_stack op none_ ∙ e, more)
            ])
  ]
    where
      woke :
          (op : Bool)
          → Rests after op (woken (if op then wake_all.onion else wake_all.clearnet) waiting)
      woke true = tt
      woke false = tt
  finished-Rests op exited b r = absurd (omega (arith, finished-active f r))
  finished-Rests op pc b r = tt
