-- ===== src/Scheduler.antt =====
-- kernel/src/proc/scheduler.c, with the types of kernel/include/scheduler.h and process.h: the run
-- queues, sleeping and waking, and the choice of the next task, as one CPU runs them. The big lock
-- and the locks of the queues are taken and released inside each function, and interrupts are off
-- throughout, so each function is one step on the state. Saving and loading a task's registers,
-- the page map, the timer and the interrupt controller are the hardware's, and not modelled.
pub mod Runqueue
pub mod Queues
pub mod Invariant
pub mod Waking
pub mod Selection
pub mod Switching
pub mod Yielding
pub mod Tests
use munk_os.Prelude.{
  ℕ, zero, suc, ◌+◌, ◌≡◌, Bool, true, false, ◌&&◌, Option, none, some, Outcome, ok, panic, fault,
  ◌>>=◌, update, ◌==◌, if◌then◌else◌,
}
use munk_os.Links.{Ptr, null, node, poison, Links}
use munk_os.Scheduler.Runqueue.{
  RunQueue, runqueue_pop_front, runqueue_insert_front, runqueue_insert_back, runqueue_remove,
}

pub data TaskState : Type 0 where
  unitialized running ready sleeping killed : TaskState

abbrev pub is_ready : TaskState → Bool
is_ready ready = true
is_ready _ = false

abbrev pub is_sleeping : TaskState → Bool
is_sleeping sleeping = true
is_sleeping _ = false

-- `enum task_priority` runs from 0, `TASK_PRIORITY_CRITICAL`, to 4, `TASK_PRIORITY_IDLE`.
abbrev pub max_priorities : ℕ
max_priorities = 5

-- The queues are `prio_queue[0]` to `prio_queue[4]`, then `sleep_queue` and `reap_queue`.
abbrev pub sleep_queue : ℕ
sleep_queue = 5

abbrev pub reap_queue : ℕ
reap_queue = 6

pub record Sched : Type 0 where
  pub rr : Links
  pub state : ℕ → TaskState
  pub prio : ℕ → ℕ
  pub queues : ℕ → RunQueue
  pub curr_thread : Option ℕ
  pub idle_thread : ℕ
  -- the interrupt flag, which `preempt_fetch` reads
  pub preempt : Bool

abbrev pub is_task : Option ℕ → ℕ → Bool
is_task none t = false
is_task (some c) t = t == c

abbrev pub with_queue : Sched → ℕ → Links × RunQueue → Sched
with_queue s i (k, q) = record s { rr = k; queues = update s.queues i q }

abbrev pub with_state : Sched → ℕ → TaskState → Sched
with_state s t st = record s { state = update s.state t st }

unfoldable pub remove_from : Sched → ℕ → ℕ → Outcome Sched
remove_from s i t = do r ← runqueue_remove s.rr (s.queues i) t; ok (with_queue s i r)

unfoldable pub insert_front : Sched → ℕ → ℕ → Outcome Sched
insert_front s i t = do r ← runqueue_insert_front s.rr (s.queues i) t; ok (with_queue s i r)

unfoldable pub insert_back : Sched → ℕ → ℕ → Outcome Sched
insert_back s i t = do r ← runqueue_insert_back s.rr (s.queues i) t; ok (with_queue s i r)

unfoldable pub scheduler_put_task2sleep : Sched → ℕ → Outcome Sched
scheduler_put_task2sleep s task =
    if s.preempt then panic else if is_sleeping (s.state task) then panic else do
      s' ← if is_task s.curr_thread task then ok s else remove_from s (s.prio task) task
      insert_back (with_state s' task sleeping) sleep_queue task

unfoldable pub scheduler_attempt_wake : Sched → ℕ → Outcome Sched
scheduler_attempt_wake s task =
    if is_sleeping (s.state task)
    then (do
      s' ← remove_from s sleep_queue task
      insert_front (with_state s' task ready) (s'.prio task) task)
    else ok s

-- The task that is left when queue `i` has been popped; `none` goes on to the next queue.
abbrev pub check_found : Sched → Option ℕ → Outcome (Option ℕ)
check_found s none = ok none
check_found s (some t) = if is_ready (s.state t) then ok (some t) else panic

-- The rounds `i` to `i + n - 1` of the loop.
unfoldable pub find_from : ℕ → ℕ → Sched → Outcome (Option ℕ × Sched)
find_from zero i s = ok (none, s)
find_from (suc n) i s = do
  (popped, k, q) ← runqueue_pop_front s.rr (s.queues i)
  found ← check_found s popped
  elim found [
    | none ↦ find_from n (i + 1) (with_queue s i (k, q))
    | some t ↦ ok (some t, with_queue s i (k, q))
  ]

unfoldable pub find_task_to_run : Sched → Outcome (Option ℕ × Sched)
unfolding find_from
find_task_to_run s = find_from max_priorities 0 s

unfoldable pub switch2task : Sched → ℕ → Outcome Sched
switch2task s target =
    if is_ready (s.state target)
    then if s.preempt
      then panic
      else ok (record (with_state s target running) { curr_thread = some target })
    else panic

abbrev pub next_or_idle : Option ℕ → ℕ → ℕ
next_or_idle none idle = idle
next_or_idle (some t) idle = t

unfoldable pub switch_to_next_task : Sched → Outcome Sched
unfolding find_task_to_run switch2task
switch_to_next_task s =
    if s.preempt
    then panic
    else do (next, s') ← find_task_to_run s; switch2task s' (next_or_idle next s'.idle_thread)

abbrev pub is_null : Ptr → Bool
is_null null = true
is_null (node n) = false
is_null poison = false

abbrev pub enqueue_yielding : Sched → ℕ → Outcome Sched
enqueue_yielding s curr =
    if is_null (s.rr.next curr) && is_null (s.rr.prev curr)
    then insert_back s (s.prio curr) curr
    else panic

yield_as : Sched → Option ℕ → Outcome Sched
yield_as s none = fault
yield_as s (some curr) = do
  s' ← if is_sleeping (s.state curr) then ok s else enqueue_yielding s curr
  switch_to_next_task s'

-- Up to the switch to the next task; the yielding task returns from here when it is next loaded.
unfoldable pub scheduler_yield : Sched → Outcome Sched
unfolding yield_as switch_to_next_task insert_back
scheduler_yield s = yield_as (record s { preempt = false }) s.curr_thread
