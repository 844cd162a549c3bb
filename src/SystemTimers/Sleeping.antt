-- ===== src/SystemTimers/Sleeping.antt =====
-- `scheduler_sleep_for` of kernel/src/proc/scheduler.c: it registers a timer and waits for it.
use munk_os.Prelude.{
  ℕ, ◌+◌, ◌%◌, ◌^◌, ◌≡◌, ap, ◌∙◌, true, List, [], ◌∷◌, Outcome, ok, update, ◌>>=◌, fun_ext,
  bind_assoc,
}
use munk_os.Links.Edits
use munk_os.TimerHeap.Contents.{is}
use munk_os.TimerHeap.Laws
use munk_os.TimerHeap.Laws.{timers}
use munk_os.Scheduler.{Sched, scheduler_yield}
use munk_os.Scheduler.Invariant
use munk_os.Events.{Kevents, finish_poll, kevents_poll}
use munk_os.Events.Subscribers
use munk_os.Events.Polling.{none_pending, Asleep, kevents_poll-Asleep}
use munk_os.SystemTimers.{System, register_system_timer, through, wake_up, scheduler_sleep_for}
use munk_os.SystemTimers.Registering.{register_system_timer-Registered}

-- The rest of the call once thread `t` has gone to sleep in the state `s`.
abbrev pub slept : (System → Outcome System) → ℕ → ℕ → ℕ → System → Kevents → Sched → Outcome System
slept away fuel tmr t y k s = do
  s' ← scheduler_yield s
  w ← through away (y, k, s')
  r ← finish_poll fuel (tmr ∷ []) t y.sched.preempt w
  wake_up r

-- Thread `t` sleeps until the timer `tmr`, which is `ms` ticks from now.
pub record Sleeping (away : System → Outcome System) (fuel : ℕ) (y : System) (w : ℕ → List ℕ)
    (t tmr ms : ℕ) (r : Outcome System) : Type 0 where
  pub timed : System
  pub events : Kevents
  pub sched : Sched
  pub runs : r ≡ slept away fuel tmr t timed events sched
  pub asleep : Asleep (tmr ∷ []) (update w tmr []) t events sched
  pub valid : Laws.IsValid timed.timers
  pub holds : (x : ℕ) → timers timed.timers x ≡ timers y.timers x + is tmr x
  pub deadline : timed.timers.expiration_time tmr ≡ (y.system_ticks + ms) % 2 ^ 64
  pub ticks_same : timed.system_ticks ≡ y.system_ticks

sleep_runs :
    (kmalloc : ℕ → Outcome (ℕ → ℕ)) (away : System → Outcome System) (fuel tmr ms t : ℕ)
    (y y1 : System) (k : Kevents) (s : Sched)
    → register_system_timer kmalloc y tmr ms ≡ ok y1
    → kevents_poll (through away) fuel (tmr ∷ []) (y1, y1.events, y1.sched) ≡ (do
      s' ← scheduler_yield s
      w ← through away (y1, k, s')
      finish_poll fuel (tmr ∷ []) t y1.sched.preempt w)
    → scheduler_sleep_for kmalloc away fuel y tmr ms ≡ slept away fuel tmr t y1 k s
unfolding scheduler_sleep_for
sleep_runs kmalloc away fuel tmr ms t y y1 k s e f =
    rw (e, f)
      (bind_assoc (scheduler_yield s) _ wake_up
        ∙ ap (λ (h : Sched → Outcome System). scheduler_yield s >>= h)
            (fun_ext (λ s'. bind_assoc (through away (y1, k, s')) _ wake_up)))

-- The running thread calls with a new timer, with fewer than 3000 timers in the first block of the
-- array, or none and a block that `kmalloc` gives: the timer is in the heap, to expire `ms` ticks from now, and the thread sleeps, and waits for it, before it
-- yields, so that it cannot miss the tick that wakes it. The heap, the lists of waiting threads and
-- the run queues are valid then.
pub scheduler_sleep_for-Sleeping :
    (kmalloc : ℕ → Outcome (ℕ → ℕ)) (away : System → Outcome System) (fuel : ℕ) (y : System)
    (w c : ℕ → List ℕ) (t tmr ms : ℕ)
    → Laws.IsValid y.timers
    → Laws.HasRoom kmalloc y.timers
    → timers y.timers tmr ≡ 0
    → Subscribers.IsValid y.events w
    → Invariant.IsValid y.sched c
    → Invariant.IsCurrent y.sched c t
    → Sleeping away fuel y w t tmr ms (scheduler_sleep_for kmalloc away fuel y tmr ms)
scheduler_sleep_for-Sleeping kmalloc away fuel y w c t tmr ms heap small new waiting v h =
    let r = register_system_timer-Registered kmalloc y w tmr ms heap small new waiting in
    let y1 = r.result in
    let quiet : none_pending y1.events (tmr ∷ []) ≡ true = rw (r.pending, Edits.==_refl) in
    let (k, s, runs, asleep) =
      kevents_poll-Asleep (through away) y1 fuel (tmr ∷ []) y1.events (update w tmr []) y1.sched c t
        r.waiting (rw r.sched_same v) (rw r.sched_same h) quiet in
    record {
      timed = y1;
      events = k;
      sched = s;
      runs = sleep_runs kmalloc away fuel tmr ms t y y1 k s r.runs runs;
      asleep = asleep;
      valid = r.valid;
      holds = r.holds;
      deadline = ap (λ (f : ℕ → ℕ). f tmr) r.times ∙ rw Edits.==_refl;
      ticks_same = r.ticks_same;
    }
