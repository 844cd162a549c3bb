-- ===== src/Preemption/Leaving.antt =====
-- A thread that exits, or that is found killed at the end of its slice, in
-- kernel/src/proc/scheduler.c: it goes to the reap queue, and the reaper is woken.
use munk_os.Prelude.{
  ℕ, ◌≡◌, ◌≤◌, refl, ap, sym, ◌∙◌, false, Option, some, none, List, [], ◌∷◌, ◌++◌, mem, mem-append,
  arith, update, ok, Outcome, ◌==◌, ==_iff, length, ◌+◌, ◌%◌, ◌^◌,
}
use mathlib.Core.Path.{subst}
use munk_os.Links.Edits
use munk_os.Scheduler.{
  Sched, TaskState, running, ready, killed, sleep_queue, reap_queue, max_priorities, with_queue,
  with_state, insert_back, switch_to_next_task, next_or_idle,
}
use munk_os.Scheduler.Queues
use munk_os.Scheduler.Queues.{Nowhere}
use munk_os.Scheduler.Invariant.{IsValid, IsCurrent, IsAside}
use munk_os.Scheduler.Selection.{Chosen, nothing, first, IsFound}
use munk_os.Scheduler.Switching.{switch_to_next_task-Switched}
use munk_os.Events.{Kevents, kevent_launch}
use munk_os.Events.Subscribers
use munk_os.Events.Launching.{awake, woken_queues, kevent_launch-Launched}
use munk_os.Preemption.{leave, preempt_disable, scheduler_preempt, scheduler_kernel_thread_exit}
use munk_os.Preemption.Slices.{behind, Moved-IsAside}

-- The outcome when the killed task `t` leaves the CPU, while the threads `w` wait for events.
pub record Left (k : Kevents) (w : ℕ → List ℕ) (s : Sched) (c : ℕ → List ℕ) (reap_event t : ℕ)
    (r : Outcome (Kevents × Sched)) : Type 0 where
  pub events : Kevents
  pub result : Sched
  pub choice : Option ℕ
  pub held : ℕ → List ℕ
  pub runs : r ≡ ok (events, result)
  pub waiting : Subscribers.IsValid events w
  pub counts :
      events.unprocessed ≡ update k.unprocessed reap_event ((k.unprocessed reap_event + 1) % 2 ^ 64)
  pub chosen :
      Chosen max_priorities 0
        (woken_queues s.prio s.state (behind c reap_queue t) (w reap_event))
        choice
        held
  pub valid : IsValid result held
  pub current : IsCurrent result held (next_or_idle choice s.idle_thread)
  pub reaped : held reap_queue ≡ c reap_queue ++ t ∷ []
  pub dead : result.state t ≡ killed
  pub states :
      (a : ℕ)
      → result.state a
        ≡ update (awake s.state (w reap_event)) (next_or_idle choice s.idle_thread) running a

-- Choosing the next task takes none out of the reap queue.
Chosen-reap :
    (c d : ℕ → List ℕ) (o : Option ℕ) → Chosen max_priorities 0 c o d → d reap_queue ≡ c reap_queue
Chosen-reap c d o (nothing e f all) = ap (λ (g : ℕ → List ℕ). g reap_queue) f
Chosen-reap c d o (first j t xs e f lo hi here below) =
    ap (λ (g : ℕ → List ℕ). g reap_queue) f ∙ ground arith

leave_runs :
    (fuel reap_event t : ℕ) (k k' : Kevents) (s s1 s2 s3 : Sched)
    → insert_back s reap_queue t ≡ ok s1
    → kevent_launch fuel reap_event (k, s1) ≡ ok (k', s2)
    → switch_to_next_task s2 ≡ ok s3
    → leave fuel reap_event t (k, s) ≡ ok (k', s3)
unfolding leave
leave_runs fuel reap_event t k k' s s1 s2 s3 e f g = rw (e, f, g)

awake-ready : (st : ℕ → TaskState) (ts : List ℕ) (a : ℕ) → st a ≡ ready → awake st ts a ≡ ready
awake-ready st ts a e = ground arith

module _ {s : Sched} {c : ℕ → List ℕ} {t : ℕ} (v : IsValid s c) (dead : s.state t ≡ killed)
    (out : Nowhere t c) where
  reaping :
      Queues.Moved s.rr s.queues reap_queue
        (behind c reap_queue t)
        (munk_os.Scheduler.Runqueue.runqueue_insert_back s.rr (s.queues reap_queue) t)
  reaping = Queues.insert_back-Moved v.queues t out reap_queue

  pub to_reap : Sched
  to_reap = with_queue s reap_queue (reaping.links, reaping.rq)

  pub to_reap-runs : insert_back s reap_queue t ≡ ok to_reap
  unfolding insert_back to_reap
  to_reap-runs = rw reaping.runs

  to_reap-IsValid : IsValid to_reap (behind c reap_queue t)
  unfolding to_reap
  to_reap-IsValid = record {
    queues = reaping.valid;
    runnable = λ p a low i. ground (arith, v.runnable p a low);
    asleep = λ a i. v.asleep a i;
    sleepers = λ a h. v.sleepers a h;
    dead = λ a i. ground (arith, v.dead a, ==_iff a t, mem-append a (c reap_queue) (t ∷ []));
    prio_in = v.prio_in;
  }

  to_reap-IsAside :
      (a : ℕ) → (a == t) ≡ false → IsAside s.rr c a → IsAside to_reap.rr (behind c reap_queue t) a
  unfolding to_reap
  to_reap-IsAside a ne h = Moved-IsAside t reap_queue a reaping ne h

  leave-Left :
      (fuel reap_event x : ℕ) (k : Kevents) (w : ℕ → List ℕ) (xs : List ℕ)
      → Subscribers.IsValid k w
      → w reap_event ≡ x ∷ xs
      → length (w reap_event) ≤ fuel
      → IsFound s c s.idle_thread
      → s.preempt ≡ false
      → Left k w s c reap_event t (leave fuel reap_event t (k, s))
  unfolding to_reap
  leave-Left fuel reap_event x k w xs u e f idle off =
      let i = s.idle_thread in
      let ne : (i == t) ≡ false = ground (arith, idle.state, dead, ==_iff i t) in
      let l =
        kevent_launch-Launched fuel k w to_reap (behind c reap_queue t) reap_event x xs u
          to_reap-IsValid e f in
      let aside =
        l.spares i
          (to_reap-IsAside i ne (record { nowhere = idle.nowhere; unlinked = idle.unlinked })) in
      let found : IsFound l.sched l.held l.sched.idle_thread = rw l.idle_same (record {
        state = l.states i ∙ awake-ready s.state (w reap_event) i idle.state;
        nowhere = aside.nowhere;
        unlinked = aside.unlinked;
      }) in
      let r = switch_to_next_task-Switched l.valid found (l.preempt_same ∙ off) in
      let reaped : r.held reap_queue ≡ c reap_queue ++ t ∷ [] =
        Chosen-reap l.held r.held r.choice r.chosen ∙ l.reap_same in
      record {
        events = l.events;
        result = r.result;
        choice = r.choice;
        held = r.held;
        runs =
            leave_runs fuel reap_event t k l.events s to_reap l.sched r.result to_reap-runs l.runs
              r.runs;
        waiting = l.waiting;
        counts = l.counts;
        chosen = subst (λ q. Chosen max_priorities 0 q r.choice r.held) l.held_is r.chosen;
        valid = r.valid;
        current =
            subst (λ j. IsCurrent r.result r.held (next_or_idle r.choice j)) l.idle_same r.current;
        reaped = reaped;
        dead =
            r.valid.dead t
              (ap (mem t) reaped ∙ ground (arith, mem-append t (c reap_queue) (t ∷ [])));
        states = λ a.
            ap (λ (g : ℕ → TaskState). g a) r.states
            ∙ ap (λ j. update l.sched.state (next_or_idle r.choice j) running a) l.idle_same
            ∙ ground (arith, l.states a);
      }

-- The running task is marked as killed.
abbrev pub exiting : Sched → ℕ → Sched
exiting s t = with_state (preempt_disable s) t killed

pub exiting-IsValid :
    {s : Sched} {c : ℕ → List ℕ} {t : ℕ} → IsValid s c → IsCurrent s c t → IsValid (exiting s t) c
exiting-IsValid {s} {c} {t} v h = record {
  queues = v.queues;
  runnable =
      λ p a low i. ground (arith, v.runnable p a low i, Edits.not_same a t (c p) i (h.nowhere p));
  asleep = λ a i.
      ground (arith, v.asleep a i, Edits.not_same a t (c sleep_queue) i (h.nowhere sleep_queue));
  sleepers = λ a e. ground (arith, v.sleepers a);
  dead = λ a i. ground (arith, v.dead a i);
  prio_in = v.prio_in;
}

pub exit_runs :
    (fuel reap_event t : ℕ) (k : Kevents) (s : Sched) (r : Outcome (Kevents × Sched))
    → s.curr_thread ≡ some t
    → leave fuel reap_event t (k, exiting s t) ≡ r
    → scheduler_kernel_thread_exit fuel reap_event (k, s) ≡ r
unfolding scheduler_kernel_thread_exit
exit_runs fuel reap_event t k s r e h = cc

killed_runs :
    (fuel reap_event t : ℕ) (k : Kevents) (s : Sched) (r : Outcome (Kevents × Sched))
    → s.preempt ≡ false
    → s.curr_thread ≡ some t
    → s.state t ≡ killed
    → leave fuel reap_event t (k, record s { curr_thread = none }) ≡ r
    → scheduler_preempt fuel reap_event (k, s) ≡ r
unfolding scheduler_preempt
killed_runs fuel reap_event t k s r off e st h = cc

module _ (fuel reap_event x t : ℕ) (k : Kevents) (w : ℕ → List ℕ) (xs : List ℕ) {s : Sched}
    {c : ℕ → List ℕ} (v : IsValid s c) (idle : IsFound s c s.idle_thread)
    (waiting : Subscribers.IsValid k w) (reaper : w reap_event ≡ x ∷ xs)
    (enough : length (w reap_event) ≤ fuel) where
  -- A thread that exits, while some thread waits for the reaper's event, with as much fuel as threads
  -- wait for it, and with the idle task ready and in no queue, never fails: it is killed and goes
  -- behind the tasks that are to be reaped, the event is counted, each sleeping thread that waits for
  -- it becomes ready and moves from the sleep queue to the front of the queue of its priority, and
  -- then the first task of the highest priority that has any, or else the idle task, runs. No other
  -- task changes its state, and the queues agree with the states.
  pub scheduler_kernel_thread_exit-Left :
      IsCurrent s c t
      → Left k w (exiting s t) c reap_event t (scheduler_kernel_thread_exit fuel reap_event (k, s))
  scheduler_kernel_thread_exit-Left h =
      let found : IsFound (exiting s t) c s.idle_thread = record {
        state = ground (arith, idle.state, h.state, ==_iff s.idle_thread t);
        nowhere = idle.nowhere;
        unlinked = idle.unlinked;
      } in
      let r =
        leave-Left (exiting-IsValid v h) (ground arith) h.nowhere fuel reap_event x k w xs waiting
          reaper enough found refl in
      subst (Left k w (exiting s t) c reap_event t)
        (sym (exit_runs fuel reap_event t k s _ h.loaded refl)) r

  -- At the end of its slice a task that another one has marked as killed leaves the CPU in the same
  -- way.
  pub scheduler_preempt-killed-Left :
      s.curr_thread ≡ some t
      → s.state t ≡ killed
      → Nowhere t c
      → s.preempt ≡ false
      → Left k w
          (record s { curr_thread = none })
          c
          reap_event
          t
          (scheduler_preempt fuel reap_event (k, s))
  scheduler_preempt-killed-Left loaded dead out off =
      let s0 = record s { curr_thread = none } in
      let valid : IsValid s0 c = record {
        queues = v.queues;
        runnable = v.runnable;
        asleep = v.asleep;
        sleepers = v.sleepers;
        dead = v.dead;
        prio_in = v.prio_in;
      } in
      let found : IsFound s0 c s.idle_thread = record {
        state = idle.state;
        nowhere = idle.nowhere;
        unlinked = idle.unlinked;
      } in
      let r = leave-Left valid dead out fuel reap_event x k w xs waiting reaper enough found off in
      subst (Left k w s0 c reap_event t)
        (sym (killed_runs fuel reap_event t k s _ off loaded dead refl)) r
