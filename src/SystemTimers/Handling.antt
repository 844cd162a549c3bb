-- ===== src/SystemTimers/Handling.antt =====
-- `system_timer_handler` of kernel/src/misc/time.c, with `kevent_launch` and the scheduler behind it.
use munk_os.Prelude.{
  ℕ, ◌+◌, ◌<◌, ◌≤◌, ◌≡◌, refl, ◌∙◌, arith, List, [], ◌∷◌, ◌++◌, Outcome, ok, true, mem, mem-append,
  length,
}
use mathlib.Core.Path.{subst}
use munk_os.Scheduler.{Sched}
use munk_os.Scheduler.Invariant
use munk_os.TimerHeap.{Timers, dispatch}
use munk_os.TimerHeap.Laws
use munk_os.TimerHeap.Laws.{timers}
use munk_os.TimerHeap.Dispatch.{dispatch-Dispatched, occurrences, due, launch_all}
use munk_os.Events.{Kevents, kevent_launch}
use munk_os.Events.Subscribers.{IsValid}
use munk_os.Events.Launching.{awake, Launched, kevent_launch-Launched}
use munk_os.SystemTimers.{System, tick, system_timer_handler}

-- The threads that wait for any of the events.
abbrev pub waiters : (ℕ → List ℕ) → List ℕ → List ℕ
waiters w [] = []
waiters w (ev ∷ events) = w ev ++ waiters w events

-- Some thread waits for the event, and no more threads than there is fuel.
abbrev pub Awaited : ℕ → (ℕ → List ℕ) → ℕ → Type 0
Awaited fuel w ev = (t : ℕ) × (ts : List ℕ) × (w ev ≡ t ∷ ts) × (length (w ev) ≤ fuel)

abbrev Inv : (ℕ → List ℕ) → Kevents × Sched → Type 0
Inv w p = (held : ℕ → List ℕ) × IsValid p.0 w × Invariant.IsValid p.1 held

launch_one :
    (fuel : ℕ) (w : ℕ → List ℕ) (ev : ℕ) (p : Kevents × Sched)
    → Awaited fuel w ev
    → (i : Inv w p) → Launched p.0 w p.1 i.0 ev (kevent_launch fuel ev p)
launch_one fuel w ev p (t, ts, e, f) (held, v, u) =
    kevent_launch-Launched fuel p.0 w p.1 held ev t ts v u e f

launches :
    (fuel : ℕ) (w : ℕ → List ℕ) (ev : ℕ) (p : Kevents × Sched)
    → Awaited fuel w ev
    → Inv w p
    → (q : Kevents × Sched) × (kevent_launch fuel ev p ≡ ok q) × Inv w q
launches fuel w ev p a i =
    let r = launch_one fuel w ev p a i in
    ((r.events, r.sched), r.runs, (r.held, r.waiting, r.valid))

-- What launching the events of a list does to the threads.
record Served (w : ℕ → List ℕ) (events : List ℕ) (s : Sched) (q : Kevents × Sched) : Type 0 where
  inv : Inv w q
  states : (a : ℕ) → q.1.state a ≡ awake s.state (waiters w events) a
  curr_same : q.1.curr_thread ≡ s.curr_thread
  preempt_same : q.1.preempt ≡ s.preempt

module _ (fuel : ℕ) (w : ℕ → List ℕ) where
  launch_all-Served :
      (events : List ℕ) (p q : Kevents × Sched)
      → ((ev : ℕ) → mem ev events ≡ true → Awaited fuel w ev)
      → Inv w p
      → launch_all (kevent_launch fuel) events p ≡ ok q
      → Served w events p.1 q
  launch_all-Served [] p q a i runs =
      let e : p ≡ q = cc in
      subst (Served w [] p.1) e
        (record { inv = i; states = λ a. refl; curr_same = refl; preempt_same = refl })
  launch_all-Served (ev ∷ events) p q a i runs =
      let r = launch_one fuel w ev p (a ev (ground arith)) i in
      let later : launch_all (kevent_launch fuel) events (r.events, r.sched) ≡ ok q =
        rw r.runs at runs in
      let d =
        launch_all-Served events (r.events, r.sched) q (λ x m. a x (ground arith))
          (r.held, r.waiting, r.valid) later in
      record {
        inv = d.inv;
        states =
            λ b. ground (arith, d.states b, r.states b, mem-append b (w ev) (waiters w events));
        curr_same = d.curr_same ∙ r.curr_same;
        preempt_same = d.preempt_same ∙ r.preempt_same;
      }

-- The outcome of one tick.
pub record Handled (y : System) (w : ℕ → List ℕ) (r : Outcome System) : Type 0 where
  pub fired : List ℕ
  pub result : System
  pub held : ℕ → List ℕ
  pub runs : r ≡ ok result
  pub ticks : result.system_ticks ≡ (tick y).system_ticks
  pub unix : result.unix_time ≡ (tick y).unix_time
  pub heap : Laws.IsValid result.timers
  pub times : result.timers.expiration_time ≡ y.timers.expiration_time
  pub holds : (x : ℕ) → timers y.timers x ≡ timers result.timers x + occurrences fired x
  pub all_due : due y.timers.expiration_time result.system_ticks fired ≡ true
  pub none_due :
      (x : ℕ) → 0 < timers result.timers x → result.system_ticks < y.timers.expiration_time x
  pub waiting : IsValid result.events w
  pub sched : Invariant.IsValid result.sched held
  pub states : (a : ℕ) → result.sched.state a ≡ awake y.sched.state (waiters w fired) a
  pub curr_same : result.sched.curr_thread ≡ y.sched.curr_thread

fired_Awaited : (xs : List ℕ) (x : ℕ) → mem x xs ≡ true → 0 < occurrences xs x
fired_Awaited [] x i = cc
fired_Awaited (y ∷ ys) x i = ground (arith, fired_Awaited ys x)

handler_runs :
    (kmalloc : ℕ → Outcome (ℕ → ℕ)) (fuel : ℕ) (y : System) (fired : List ℕ) (t : Timers)
    (q : Kevents × Sched)
    → dispatch kmalloc
        (kevent_launch fuel)
        fuel
        (tick y).system_ticks
        (tick y).timers
        (y.events, y.sched)
      ≡ ok (fired, t, q)
    → system_timer_handler kmalloc fuel y
      ≡ ok (record (tick y) { timers = t; events = q.0; sched = q.1 })
unfolding system_timer_handler
handler_runs kmalloc fuel y fired t q e = rw e

-- At a tick, with at most 65 timers, so that their array does not shrink, and more fuel than timers, where for every timer in the heap some thread waits and no
-- more threads than there is fuel, the handler never fails. It takes out of the heap exactly the
-- timers that are due at the new tick, and launches their events: every sleeping thread that waits
-- for one of these becomes ready, and no other thread changes state. The heap, the lists of waiting
-- threads and the run queues stay valid, and the interrupted thread stays loaded.
pub system_timer_handler-Handled :
    (kmalloc : ℕ → Outcome (ℕ → ℕ)) (fuel : ℕ) (y : System) (w held : ℕ → List ℕ)
    → y.timers.size < fuel
    → y.timers.size ≤ 65
    → Laws.IsValid y.timers
    → IsValid y.events w
    → Invariant.IsValid y.sched held
    → ((x : ℕ) → 0 < timers y.timers x → Awaited fuel w x)
    → Handled y w (system_timer_handler kmalloc fuel y)
system_timer_handler-Handled kmalloc fuel y w held f few v u g a =
    let d =
      dispatch-Dispatched kmalloc (kevent_launch fuel) (Awaited fuel w) (Inv w) (launches fuel w)
        fuel y.timers.expiration_time (tick y).system_ticks y.timers (y.events, y.sched) f few v
        refl a (held, u, g) in
    let s =
      launch_all-Served fuel w d.fired (y.events, y.sched) d.state
        (λ x i. a x (omega (arith, d.holds x, fired_Awaited d.fired x i))) (held, u, g)
        d.launched in
    record {
      fired = d.fired;
      result = record (tick y) { timers = d.result; events = d.state.0; sched = d.state.1 };
      held = s.inv.0;
      runs = handler_runs kmalloc fuel y d.fired d.result d.state d.runs;
      ticks = refl;
      unix = refl;
      heap = d.valid;
      times = d.same_times;
      holds = d.holds;
      all_due = d.all_due;
      none_due = d.none_due;
      waiting = s.inv.1;
      sched = s.inv.2;
      states = s.states;
      curr_same = s.curr_same;
    }
