-- ===== src/Scheduler/Switching.antt =====
-- `switch_to_next_task`: the task that is found, or the idle task, becomes the running task.
use munk_os.Prelude.{ℕ, ◌≡◌, refl, ap, false, Option, some, List, ◌∙◌, arith, ok, update, Outcome}
use munk_os.Links.Edits
use munk_os.Scheduler.{
  Sched, TaskState, running, ready, sleep_queue, reap_queue, max_priorities, with_state,
  find_task_to_run, switch2task, switch_to_next_task, next_or_idle,
}
use munk_os.Scheduler.Invariant.{IsValid, IsCurrent}
use munk_os.Scheduler.Selection.{Chosen, nothing, first, IsFound, Searched, find_task_to_run-Chosen}

-- `t` is loaded.
switched : (s : Sched) (t : ℕ) → Sched
switched s t = record (with_state s t running) { curr_thread = some t }

switched-runs :
    (s : Sched) (t : ℕ)
    → s.state t ≡ ready
    → s.preempt ≡ false
    → switch2task s t ≡ ok (switched s t)
unfolding switch2task switched
switched-runs s t e off = rw (e, off)

-- Loading a found task.
switched-IsValid :
    (s : Sched) (c : ℕ → List ℕ) (t : ℕ)
    → IsValid s c
    → IsFound s c t
    → IsValid (switched s t) c × IsCurrent (switched s t) c t
unfolding switched
switched-IsValid s c t v f = (
  record {
    queues = v.queues;
    runnable =
        λ p a h i. ground (arith, v.runnable p a h i, Edits.not_same a t (c p) i (f.nowhere p));
    asleep = λ a i.
        ground (arith, v.asleep a i, Edits.not_same a t (c sleep_queue) i (f.nowhere sleep_queue));
    sleepers = λ a e. ground (arith, v.sleepers a);
    dead = λ a i.
        ground (arith, v.dead a i, Edits.not_same a t (c reap_queue) i (f.nowhere reap_queue));
    prio_in = v.prio_in;
  },
  record { loaded = refl; state = ground arith; nowhere = f.nowhere; unlinked = f.unlinked },
)

-- The task that `switch_to_next_task` loads: the one found, or the idle task.
loaded-IsFound :
    (s : Sched) (c d : ℕ → List ℕ) (o : Option ℕ) (r : Searched s o d (find_task_to_run s))
    → Chosen max_priorities 0 c o d
    → IsFound s c s.idle_thread
    → IsFound r.after d (next_or_idle o s.idle_thread)
loaded-IsFound s c d o r (nothing e f all) idle = rw (e, f, r.missed e) idle
loaded-IsFound s c d o r (first j t xs e f lo hi here below) idle = rw e (r.found t e)

switch_runs :
    (s s' : Sched) (o : Option ℕ)
    → s.preempt ≡ false
    → find_task_to_run s ≡ ok (o, s')
    → s'.idle_thread ≡ s.idle_thread
    → s'.state (next_or_idle o s.idle_thread) ≡ ready
    → s'.preempt ≡ false
    → switch_to_next_task s ≡ ok (switched s' (next_or_idle o s.idle_thread))
unfolding switch_to_next_task
switch_runs s s' o off e idle st off' =
    rw (off, e) (switched-runs s' (next_or_idle o s'.idle_thread) (rw idle st) off')
    ∙ ap (λ i. ok (switched s' (next_or_idle o i))) idle

-- The outcome of switching: `chosen` is found among the tasks `c`, or else the idle task is loaded.
pub record Switched (s : Sched) (c : ℕ → List ℕ) (r : Outcome Sched) : Type 0 where
  pub result : Sched
  pub choice : Option ℕ
  pub held : ℕ → List ℕ
  pub runs : r ≡ ok result
  pub chosen : Chosen max_priorities 0 c choice held
  pub valid : IsValid result held
  pub current : IsCurrent result held (next_or_idle choice s.idle_thread)
  pub states : result.state ≡ update s.state (next_or_idle choice s.idle_thread) running
  pub prios : result.prio ≡ s.prio
  pub idle_same : result.idle_thread ≡ s.idle_thread
  pub off : result.preempt ≡ false

pub switch_to_next_task-Switched :
    {s : Sched} {c : ℕ → List ℕ}
    → IsValid s c
    → IsFound s c s.idle_thread
    → s.preempt ≡ false
    → Switched s c (switch_to_next_task s)
unfolding switched
switch_to_next_task-Switched {s} {c} v idle off =
    let (o, d, r, chosen) = find_task_to_run-Chosen v in
    let t = next_or_idle o s.idle_thread in
    let f = loaded-IsFound s c d o r chosen idle in
    let w = switched-IsValid r.after d t r.valid f in
    record {
      result = switched r.after t;
      choice = o;
      held = d;
      runs = switch_runs s r.after o off r.runs r.same.idle_thread f.state (r.same.preempt ∙ off);
      chosen = chosen;
      valid = w.0;
      current = w.1;
      states = ap (λ (st : ℕ → TaskState). update st t running) r.same.state;
      prios = r.same.prio;
      idle_same = r.same.idle_thread;
      off = r.same.preempt ∙ off;
    }

-- With interrupts off and an idle task that is ready, switching never panics: the chosen task, or
-- the idle task if there is none, becomes the running task, and the queues stay valid.
pub switch_to_next_task-IsValid :
    {s : Sched} {c : ℕ → List ℕ}
    → IsValid s c
    → IsFound s c s.idle_thread
    → s.preempt ≡ false
    → (s' : Sched) × (o : Option ℕ) × (d : ℕ → List ℕ) × (switch_to_next_task s ≡ ok s')
      × Chosen max_priorities 0 c o d
      × IsValid s' d
      × IsCurrent s' d (next_or_idle o s.idle_thread)
switch_to_next_task-IsValid v idle off =
    let r = switch_to_next_task-Switched v idle off in
    (r.result, r.choice, r.held, r.runs, r.chosen, r.valid, r.current)
