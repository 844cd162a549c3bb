-- ===== src/Preemption/Slices.antt =====
-- `scheduler_preempt` of kernel/src/proc/scheduler.c when the interrupted task goes on later.
use munk_os.Prelude.{
  ℕ, ◌≡◌, ◌∙◌, false, true, Option, some, none, List, [], ◌∷◌, ◌++◌, mem-append, arith, update, ok,
  Outcome, ◌==◌, ==_iff, Bool-cases, inl, inr, if◌then◌else◌,
}
use munk_os.Links.{Links}
use munk_os.Links.Edits
use munk_os.Scheduler.{
  Sched, running, ready, sleep_queue, reap_queue, max_priorities, with_queue, with_state,
  insert_back, switch_to_next_task, next_or_idle,
}
use munk_os.Scheduler.Runqueue.{RunQueue, runqueue_insert_back}
use munk_os.Scheduler.Queues
use munk_os.Scheduler.Queues.{Nowhere}
use munk_os.Scheduler.Invariant.{IsValid, IsCurrent, IsAside}
use munk_os.Scheduler.Selection.{Chosen, IsFound}
use munk_os.Scheduler.Switching.{switch_to_next_task-Switched}
use munk_os.Events.{Kevents}
use munk_os.Preemption.{requeue, scheduler_preempt}

-- `c` with `t` behind the others of queue `i`.
abbrev pub behind : (ℕ → List ℕ) → ℕ → ℕ → ℕ → List ℕ
behind c i t = update c i (c i ++ t ∷ [])

-- A task that stands aside is still aside when another one has been put in a queue.
pub Moved-IsAside :
    {l : Links} {qs : ℕ → RunQueue} {c : ℕ → List ℕ} {r : Outcome (Links × RunQueue)} (t i a : ℕ)
    (m : Queues.Moved l qs i (behind c i t) r)
    → (a == t) ≡ false
    → IsAside l c a
    → IsAside m.links (behind c i t) a
Moved-IsAside {c} t i a m ne h =
    let off : Nowhere a (behind c i t) =
      λ j. ground (arith, h.nowhere j, h.nowhere i, mem-append a (c i) (t ∷ [])) in
    let p = m.same a off in
    record { nowhere = off; unlinked = (p.0 ∙ h.unlinked.0, p.1 ∙ h.unlinked.1) }

-- The running task is ready, and runs no longer.
abbrev pub stopped : Sched → ℕ → Sched
stopped s t = with_state (record s { curr_thread = none }) t ready

stopped-IsValid :
    {s : Sched} {c : ℕ → List ℕ} {t : ℕ} → IsValid s c → IsCurrent s c t → IsValid (stopped s t) c
stopped-IsValid {s} {c} {t} v h = record {
  queues = v.queues;
  runnable = λ p a low i. ground (arith, v.runnable p a low i);
  asleep = λ a i.
      ground (arith, v.asleep a i, Edits.not_same a t (c sleep_queue) i (h.nowhere sleep_queue));
  sleepers = λ a e. ground (arith, v.sleepers a);
  dead =
      λ a i. ground (arith, v.dead a i, Edits.not_same a t (c reap_queue) i (h.nowhere reap_queue));
  prio_in = v.prio_in;
}

-- A ready task that is in no queue goes behind the others of its priority.
queued-IsValid :
    {s : Sched} {c : ℕ → List ℕ} {t : ℕ}
    → IsValid s c
    → s.state t ≡ ready
    → (m : Queues.Moved s.rr s.queues
        (s.prio t)
        (behind c (s.prio t) t)
        (runqueue_insert_back s.rr (s.queues (s.prio t)) t))
    → IsValid (with_queue s (s.prio t) (m.links, m.rq)) (behind c (s.prio t) t)
queued-IsValid {s} {c} {t} v e m = record {
  queues = m.valid;
  runnable = λ p a low i.
      ground (arith, v.runnable p a low, ==_iff a t, mem-append a (c (s.prio t)) (t ∷ []));
  asleep = λ a i. ground (arith, v.asleep a, v.prio_in t);
  sleepers = λ a h. ground (arith, v.sleepers a, v.prio_in t);
  dead = λ a i. ground (arith, v.dead a, v.prio_in t);
  prio_in = v.prio_in;
}

-- What the run queues hold when `t` is to go on later.
abbrev pub requeued : Sched → ℕ → (ℕ → List ℕ) → ℕ → List ℕ
requeued s t c = if t == s.idle_thread then c else behind c (s.prio t) t

-- The outcome of preempting the running task `t`.
pub record Preempted (k : Kevents) (s : Sched) (c : ℕ → List ℕ) (t : ℕ)
    (r : Outcome (Kevents × Sched)) : Type 0 where
  pub result : Sched
  pub choice : Option ℕ
  pub held : ℕ → List ℕ
  pub runs : r ≡ ok (k, result)
  pub chosen : Chosen max_priorities 0 (requeued s t c) choice held
  pub valid : IsValid result held
  pub current : IsCurrent result held (next_or_idle choice s.idle_thread)
  pub states :
      result.state ≡ update (update s.state t ready) (next_or_idle choice s.idle_thread) running
  pub prios : result.prio ≡ s.prio

requeue_idle :
    (s : Sched) (t : ℕ) → (t == s.idle_thread) ≡ true → requeue t s ≡ switch_to_next_task s
unfolding requeue
requeue_idle s t e = rw e

requeue_runs :
    (s s' : Sched) (t : ℕ)
    → (t == s.idle_thread) ≡ false
    → insert_back s (s.prio t) t ≡ ok s'
    → requeue t s ≡ switch_to_next_task s'
unfolding requeue
requeue_runs s s' t e h = rw (e, h)

preempt_runs :
    (fuel reap_event : ℕ) (k : Kevents) (s s' : Sched) (t : ℕ)
    → s.preempt ≡ false
    → s.curr_thread ≡ some t
    → s.state t ≡ running
    → requeue t (stopped s t) ≡ ok s'
    → scheduler_preempt fuel reap_event (k, s) ≡ ok (k, s')
unfolding scheduler_preempt
preempt_runs fuel reap_event k s s' t off e st h = cc

-- The end of the slice of the idle task, which is not queued.
preempt_idle :
    (fuel reap_event : ℕ) (k : Kevents) {s : Sched} {c : ℕ → List ℕ} {t : ℕ}
    → IsValid s c
    → IsCurrent s c t
    → s.preempt ≡ false
    → (t == s.idle_thread) ≡ true
    → Preempted k s c t (scheduler_preempt fuel reap_event (k, s))
preempt_idle fuel reap_event k {s} {c} {t} v h off e =
    let same : s.idle_thread ≡ t = ground arith in
    let idle : IsFound (stopped s t) c s.idle_thread = record {
      state = ground arith;
      nowhere = λ i. rw same (h.nowhere i);
      unlinked = rw same h.unlinked;
    } in
    let r = switch_to_next_task-Switched (stopped-IsValid v h) idle off in
    record {
      result = r.result;
      choice = r.choice;
      held = r.held;
      runs =
          preempt_runs fuel reap_event k s r.result t off h.loaded h.state
            (requeue_idle (stopped s t) t e ∙ r.runs);
      chosen = rw e r.chosen;
      valid = r.valid;
      current = r.current;
      states = r.states;
      prios = r.prios;
    }

-- The end of the slice of another task.
preempt_other :
    (fuel reap_event : ℕ) (k : Kevents) {s : Sched} {c : ℕ → List ℕ} {t : ℕ}
    → IsValid s c
    → IsCurrent s c t
    → s.preempt ≡ false
    → (t == s.idle_thread) ≡ false
    → IsFound s c s.idle_thread
    → Preempted k s c t (scheduler_preempt fuel reap_event (k, s))
unfolding insert_back
preempt_other fuel reap_event k {s} {c} {t} v h off e idle =
    let p = s.prio t in
    let s0 = stopped s t in
    let m = Queues.insert_back-Moved v.queues t h.nowhere p in
    let s1 = with_queue s0 p (m.links, m.rq) in
    let ne : (s.idle_thread == t) ≡ false = ground arith in
    let aside =
      Moved-IsAside t p s.idle_thread m ne
        (record { nowhere = idle.nowhere; unlinked = idle.unlinked }) in
    let found : IsFound s1 (behind c p t) s.idle_thread = record {
      state = rw ne idle.state;
      nowhere = aside.nowhere;
      unlinked = aside.unlinked;
    } in
    let inserted : insert_back s0 p t ≡ ok s1 = rw m.runs in
    let r =
      switch_to_next_task-Switched (queued-IsValid (stopped-IsValid v h) (ground arith) m) found
        off in
    record {
      result = r.result;
      choice = r.choice;
      held = r.held;
      runs =
          preempt_runs fuel reap_event k s r.result t off h.loaded h.state
            (requeue_runs s0 s1 t e inserted ∙ r.runs);
      chosen = rw e r.chosen;
      valid = r.valid;
      current = r.current;
      states = r.states;
      prios = r.prios;
    }

-- When the slice of the running task `t` ends, with an idle task that is ready, nothing panics. The
-- task becomes ready and goes behind all others of its priority, unless it is the idle task, which
-- is in no queue. Then the first task of the highest priority that has one runs, or else the idle
-- task; no other task changes its state, none its priority, and the queues stay valid.
pub scheduler_preempt-Preempted :
    (fuel reap_event : ℕ) (k : Kevents) {s : Sched} {c : ℕ → List ℕ} {t : ℕ}
    → IsValid s c
    → IsCurrent s c t
    → s.preempt ≡ false
    → ((t == s.idle_thread) ≡ false → IsFound s c s.idle_thread)
    → Preempted k s c t (scheduler_preempt fuel reap_event (k, s))
scheduler_preempt-Preempted fuel reap_event k {s} {c} {t} v h off idle =
    elim (Bool-cases (t == s.idle_thread)) [
      | inl e ↦ preempt_idle fuel reap_event k v h off e
      | inr e ↦ preempt_other fuel reap_event k v h off e (idle e)
    ]
