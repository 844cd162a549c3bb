-- ===== src/SystemTimers/Tests.antt =====
-- One timer, 7, that is due at tick 10; the sleeping task 2 waits for it.
use munk_os.Prelude.{ℕ, ◌+◌, ◌≡◌, refl, [], arith, ok, panic, inr, Outcome, ◌>>=◌}
use munk_os.Scheduler.{TaskState, ready, scheduler_attempt_wake}
use munk_os.Scheduler.Tests.{sched, held, sched-IsValid, sched-IsCurrent}
use munk_os.TimerHeap.{Timers, dispatch, timer_peek, timer_pop}
use munk_os.TimerHeap.Laws
use munk_os.Events.{kevent_launch}
use munk_os.Events.Tests.{events, waiting, events-IsValid}
use munk_os.SystemTimers.{System, register_system_timer, system_timer_handler, scheduler_sleep_for}
use munk_os.SystemTimers.Sleeping.{Sleeping, scheduler_sleep_for-Sleeping}
use munk_os.SystemTimers.Registering.{Registered, register_system_timer-Registered}
use munk_os.SystemTimers.Handling.{Handled, system_timer_handler-Handled}

abbrev timers : Timers
timers = record { heap = λ i. 7; size = 1; capacity = 3000; expiration_time = λ x. x + 3 }

abbrev system : System
system = record {
  system_ticks = 9;
  unix_time = 1700000000;
  timers = timers;
  events = events;
  sched = sched;
}

timers-IsValid : Laws.IsValid timers
timers-IsValid = record { order = λ i p l. absurd (omega arith); room = inr (refl, omega arith) }

-- The caches give no block.
abbrev no_block : ℕ → Outcome (ℕ → ℕ)
no_block size = panic

HasRoom-no_block : Laws.HasRoom no_block timers
HasRoom-no_block = record { fits = omega arith; given = λ e. absurd (omega (arith, e)) }

state_after : ℕ → Outcome System → Outcome TaskState
state_after t r = r >>= λ y. ok (y.sched.state t)

tick_wakes : state_after 2 (system_timer_handler no_block 4 system) ≡ ok ready
unfolding state_after system_timer_handler dispatch timer_peek timer_pop kevent_launch
    scheduler_attempt_wake munk_os.Events.wake_subscribers munk_os.Scheduler.remove_from
    munk_os.Scheduler.Runqueue.runqueue_remove munk_os.Scheduler.insert_front
    munk_os.Scheduler.Runqueue.runqueue_insert_front
tick_wakes = refl

register_system_timer-Registered_example :
    Registered system waiting 3 100 (register_system_timer no_block system 3 100)
register_system_timer-Registered_example =
    register_system_timer-Registered no_block system waiting 3 100 timers-IsValid HasRoom-no_block
      refl events-IsValid

system_timer_handler-Handled_example :
    Handled system waiting (system_timer_handler no_block 4 system)
system_timer_handler-Handled_example =
    system_timer_handler-Handled no_block 4 system waiting held (omega arith) (omega arith)
      timers-IsValid events-IsValid sched-IsValid (λ x c. (2, [], ground arith, ground arith))

-- The running task 1 sleeps for 100 ticks by the timer 3; nobody else does anything.
scheduler_sleep_for-Sleeping_example :
    Sleeping
      (λ y. ok y)
      4
      system
      waiting
      1
      3
      100
      (scheduler_sleep_for no_block (λ y. ok y) 4 system 3 100)
scheduler_sleep_for-Sleeping_example =
    scheduler_sleep_for-Sleeping no_block (λ y. ok y) 4 system waiting held 1 3 100 timers-IsValid
      HasRoom-no_block refl events-IsValid sched-IsValid sched-IsCurrent
