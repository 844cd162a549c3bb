-- ===== src/Preemption/Tests.antt =====
-- The end of a slice and of a thread among the tasks of the scheduler's tests; task 2 waits for
-- event 7, which stands for the reaper's.
use munk_os.Prelude.{ℕ, ◌≡◌, refl, [], ◌∷◌, arith, false, some, ok, panic}
use munk_os.Scheduler.Tests.{sched, held, sched-IsValid, sched-IsCurrent, idle-IsFound}
use munk_os.Events.Tests.{events, waiting, events-IsValid}
use munk_os.Events.{Kevents, finish_poll}
use munk_os.Events.Subscribers.{IsValid}
use munk_os.Preemption.Unawaited.{finish_poll-exit-panic}
use munk_os.Preemption.{scheduler_preempt, scheduler_kernel_thread_exit}
use munk_os.Preemption.Slices.{Preempted, scheduler_preempt-Preempted}
use munk_os.Preemption.Leaving.{Left, exiting, scheduler_kernel_thread_exit-Left}

scheduler_preempt-Preempted_example :
    Preempted events sched held 1 (scheduler_preempt 1 7 (events, sched))
scheduler_preempt-Preempted_example =
    scheduler_preempt-Preempted 1 7 events sched-IsValid sched-IsCurrent refl (λ e. idle-IsFound)

scheduler_kernel_thread_exit-Left_example :
    Left events waiting
      (exiting sched 1)
      held
      7
      1
      (scheduler_kernel_thread_exit 1 7 (events, sched))
scheduler_kernel_thread_exit-Left_example =
    scheduler_kernel_thread_exit-Left 1 7 2 1 events waiting [] sched-IsValid idle-IsFound
      events-IsValid refl (omega arith) sched-IsCurrent

-- The reaper is task 2, and its event 7 is pending.
abbrev pending : Kevents
pending = record events { unprocessed = λ ev. 1 }

pending-IsValid : IsValid pending waiting
pending-IsValid = record {
  lists = events-IsValid.lists;
  pool = events-IsValid.pool;
  linked = record {
    each = events-IsValid.linked.each;
    apart = events-IsValid.linked.apart;
    stack = events-IsValid.linked.stack;
    idle = events-IsValid.linked.idle;
    made_pool = events-IsValid.linked.made_pool;
    made = events-IsValid.linked.made;
  };
  waiting = events-IsValid.waiting;
}

finish_poll-exit-panic_example :
    (k' : Kevents) × (finish_poll {E = ℕ} 1 (7 ∷ []) 2 false (0, pending, sched)
      ≡ ok (some 0, 0, k', sched))
    × (scheduler_kernel_thread_exit 1 7 (k', sched) ≡ panic)
finish_poll-exit-panic_example =
    finish_poll-exit-panic 0 1 7 2 false pending waiting sched pending-IsValid refl
      (λ j. ground arith) (λ e. cc) sched-IsValid sched-IsCurrent
