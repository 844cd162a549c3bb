-- ===== src/Preemption.antt =====
-- The end of a time slice and the end of a thread in kernel/src/proc/scheduler.c:
-- `scheduler_preempt` and `scheduler_kernel_thread_exit`. Each is modelled up to the switch to the next task. As in Scheduler, one CPU runs them and
-- saving and loading registers is the hardware's. `reap_event` is the number of that event.
pub mod Leaving
pub mod Unawaited
pub mod Slices
mod Tests
use munk_os.Prelude.{
  ℕ, Bool, true, false, Option, none, some, Outcome, ok, panic, fault, ◌>>=◌, ◌==◌, if◌then◌else◌,
}
use munk_os.Scheduler.{
  Sched, TaskState, unitialized, running, ready, sleeping, killed, reap_queue, with_state,
  insert_back, switch_to_next_task,
}
use munk_os.Events.{Kevents, kevent_launch}

abbrev pub is_killed : TaskState → Bool
is_killed killed = true
is_killed _ = false

-- `preempt_disable()`
abbrev pub preempt_disable : Sched → Sched
preempt_disable s = record s { preempt = false }

-- `runqueue_insert_back(&reap_queue, curr_task); kevent_launch(&reap_event);`, then the switch.
unfoldable pub leave : ℕ → ℕ → ℕ → Kevents × Sched → Outcome (Kevents × Sched)
leave fuel reap_event t (k, s) = do
  s1 ← insert_back s reap_queue t
  (k', s2) ← kevent_launch fuel reap_event (k, s1)
  s3 ← switch_to_next_task s2
  ok (k', s3)

-- A task that goes on later: the idle task is not queued.
unfoldable pub requeue : ℕ → Sched → Outcome Sched
requeue t s = do
  s' ← if t == s.idle_thread then ok s else insert_back s (s.prio t) t
  switch_to_next_task s'

preempt_task : ℕ → ℕ → Option ℕ → Kevents × Sched → Outcome (Kevents × Sched)
preempt_task fuel reap_event none (k, s) = fault
preempt_task fuel reap_event (some t) (k, s) =
    if is_killed (s.state t)
    then leave fuel reap_event t (k, s)
    else do s' ← requeue t (with_state s t ready); ok (k, s')

-- The fuel is for the threads that wait for `reap_event`.
unfoldable pub scheduler_preempt : ℕ → ℕ → Kevents × Sched → Outcome (Kevents × Sched)
unfolding preempt_task
scheduler_preempt fuel reap_event (k, s) =
    if s.preempt
    then panic
    else preempt_task fuel reap_event s.curr_thread (k, record s { curr_thread = none })

exit_task : ℕ → ℕ → Option ℕ → Kevents × Sched → Outcome (Kevents × Sched)
exit_task fuel reap_event none (k, s) = fault
exit_task fuel reap_event (some t) (k, s) = leave fuel reap_event t (k, with_state s t killed)

unfoldable pub scheduler_kernel_thread_exit : ℕ → ℕ → Kevents × Sched → Outcome (Kevents × Sched)
unfolding exit_task
scheduler_kernel_thread_exit fuel reap_event (k, s) =
    exit_task fuel reap_event s.curr_thread (k, preempt_disable s)
