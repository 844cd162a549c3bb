-- ===== src/SystemTimers.antt =====
-- The system timer of kernel/src/misc/time.c: `register_system_timer` and the handler that runs at
-- every tick, with `scheduler_sleep_for` of kernel/src/proc/scheduler.c, over the heap of timers, the kernel events and the scheduler. The event of a timer has
-- the timer's address; `kmalloc` gives the array of the heap its block. Interrupts are off in each function and end as they began. The acknowledgement
-- of the clock and of the interrupt controller in `rtc_handler` is the hardware's.
pub mod Registering
pub mod Handling
pub mod Sleeping
mod Tests
use munk_os.Prelude.{
  ℕ, zero, suc, ◌+◌, ◌%◌, ◌^◌, Bool, true, false, List, [], ◌∷◌, Option, none, some, Outcome, ok,
  panic, ◌>>=◌, update, ◌==◌, if◌then◌else◌,
}
use munk_os.Links.{Ptr, null}
use munk_os.TimerHeap.{Timers, timer_insert, dispatch}
use munk_os.Scheduler.{Sched}
use munk_os.Events.{Kevents, kevent_launch, kevents_poll}

pub record System : Type 0 where
  pub system_ticks : ℕ
  pub unix_time : ℕ
  pub timers : Timers
  pub events : Kevents
  pub sched : Sched

-- The fields of the timer as `register_system_timer` sets them; the lock is free.
abbrev pub prepare : System → ℕ → ℕ → System
prepare y tmr ms = record y {
  timers = record y.timers {
    expiration_time = update y.timers.expiration_time tmr ((y.system_ticks + ms) % 2 ^ 64);
  };
  events = record y.events {
    subscribers = update y.events.subscribers tmr null;
    unprocessed = update y.events.unprocessed tmr 0;
  };
}

unfoldable pub register_system_timer : (ℕ → Outcome (ℕ → ℕ)) → System → ℕ → ℕ → Outcome System
register_system_timer kmalloc y tmr ms = do
  let y' = prepare y tmr ms
  timers ← timer_insert kmalloc y'.timers tmr
  ok (record y' { timers = timers })

-- One tick is counted; every thousandth is a second.
abbrev pub tick : System → System
tick y =
    let ticks = (y.system_ticks + 1) % 2 ^ 64 in
    record y {
      system_ticks = ticks;
      unix_time = if ticks % 1000 == 0 then (y.unix_time + 1) % 2 ^ 64 else y.unix_time;
    }

-- The fuel is for the timers dispatched and for the subscribers of one event.
unfoldable pub system_timer_handler : (ℕ → Outcome (ℕ → ℕ)) → ℕ → System → Outcome System
system_timer_handler kmalloc fuel y = do
  let y' = tick y
  (_, timers, w) ←
      dispatch kmalloc (kevent_launch fuel) fuel y'.system_ticks y'.timers (y'.events, y'.sched)
  ok (record y' { timers = timers; events = w.0; sched = w.1 })

-- What the others do, on the state in which the sleeping thread left events and scheduler.
abbrev pub through :
    (System → Outcome System) → System × Kevents × Sched → Outcome (System × Kevents × Sched)
through away (y, k, s) = do
  y' ← away (record y { events = k; sched = s })
  ok (y', y'.events, y'.sched)

-- Any index but 0 is a panic.
abbrev pub check_index : Option ℕ → System → Outcome System
check_index none y = panic
check_index (some zero) y = ok y
check_index (some (suc i)) y = panic

abbrev pub wake_up : Option ℕ × System × Kevents × Sched → Outcome System
wake_up (out, y, k, s) = check_index out (record y { events = k; sched = s })

-- The timer stands on the stack of the thread; `away` is what the others do while it sleeps.
unfoldable pub scheduler_sleep_for :
    (ℕ → Outcome (ℕ → ℕ)) → (System → Outcome System) → ℕ → System → ℕ → ℕ → Outcome System
scheduler_sleep_for kmalloc away fuel y tmr ms = do
  y1 ← register_system_timer kmalloc y tmr ms
  r ← kevents_poll (through away) fuel (tmr ∷ []) (y1, y1.events, y1.sched)
  wake_up r
