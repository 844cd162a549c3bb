-- ===== src/Scheduler/Yielding.antt =====
-- `scheduler_yield`, by a task that has been put to sleep and by one that has not.
use munk_os.Prelude.{
  ℕ, zero, suc, ◌+◌, ◌≤◌, ◌≡◌, refl, ◌<◌, false, Option, some, List, [], ◌∷◌, ◌++◌, inl, inr, ◌==◌,
  ==_iff, ◌∙◌, ap, arith, update, ok, panic, Outcome, ◌>>=◌, mem, mem-append, Bool-cases,
}
use munk_os.Links.Edits
use munk_os.Scheduler.{
  Sched, TaskState, running, sleeping, sleep_queue, scheduler_put_task2sleep, max_priorities,
  with_queue, is_ready, find_from, find_task_to_run, switch_to_next_task, next_or_idle,
  scheduler_yield, yield_as,
}
use munk_os.Scheduler.Queues
use munk_os.Scheduler.Queues.{AreQueues}
use munk_os.Scheduler.Invariant.{IsValid, IsCurrent}
use munk_os.Scheduler.Selection.{Chosen, nothing, first, IsFound, find_from-empty}
use munk_os.Scheduler.Switching.{switch_to_next_task-Switched}
use munk_os.Scheduler.Waking.{scheduler_put_task2sleep-Dozed}
use mathlib.Core.Path.{subst}

-- `preempt_disable()`
abbrev interrupts_off : Sched → Sched
interrupts_off s = record s { preempt = false }

interrupts_off-IsValid : {s : Sched} {c : ℕ → List ℕ} → IsValid s c → IsValid (interrupts_off s) c
interrupts_off-IsValid v = record {
  queues = v.queues;
  runnable = v.runnable;
  asleep = v.asleep;
  sleepers = v.sleepers;
  dead = v.dead;
  prio_in = v.prio_in;
}

yield_sleeping_runs :
    (s : Sched) (t : ℕ)
    → s.curr_thread ≡ some t
    → s.state t ≡ sleeping
    → scheduler_yield s ≡ switch_to_next_task (interrupts_off s)
unfolding scheduler_yield
yield_sleeping_runs s t here e =
    let runs : yield_as (interrupts_off s) (some t) ≡ switch_to_next_task (interrupts_off s) =
      rw e in
    ap (yield_as (interrupts_off s)) here ∙ runs

-- The outcome when the running task `t` has put itself to sleep and yielded.
pub record Slept (s : Sched) (c : ℕ → List ℕ) (t : ℕ) (r : Outcome Sched) : Type 0 where
  pub result : Sched
  pub choice : Option ℕ
  pub held : ℕ → List ℕ
  pub runs : r ≡ ok result
  pub chosen : Chosen max_priorities 0 (update c sleep_queue (c sleep_queue ++ t ∷ [])) choice held
  pub valid : IsValid result held
  pub current : IsCurrent result held (next_or_idle choice s.idle_thread)
  pub last : held sleep_queue ≡ c sleep_queue ++ t ∷ []
  pub asleep : result.state t ≡ sleeping
  pub states :
      result.state ≡ update (update s.state t sleeping) (next_or_idle choice s.idle_thread) running

-- Choosing the next task takes none out of the sleep queue.
Chosen-asleep :
    (c d : ℕ → List ℕ) (o : Option ℕ)
    → Chosen max_priorities 0 c o d
    → d sleep_queue ≡ c sleep_queue
Chosen-asleep c d o (nothing e f all) = ap (λ (g : ℕ → List ℕ). g sleep_queue) f
Chosen-asleep c d o (first j t xs e f lo hi here below) =
    ap (λ (g : ℕ → List ℕ). g sleep_queue) f ∙ ground arith

sleep_yield_runs :
    (s s1 s2 : Sched) (t : ℕ)
    → scheduler_put_task2sleep s t ≡ ok s1
    → scheduler_yield s1 ≡ ok s2
    → (scheduler_put_task2sleep s t >>= scheduler_yield) ≡ ok s2
sleep_yield_runs s s1 s2 t a b = rw (a, b)

-- With interrupts off and the idle task ready and in no queue, the running task can put itself to
-- sleep and yield: nothing panics, and it is the last task in the sleep queue, with the state
-- sleeping, while the first task of the highest priority that has any, or else the idle task, runs.
-- No other task changes its state or its place, and the queues stay valid.
pub put_task2sleep-yield-Slept :
    {s : Sched} {c : ℕ → List ℕ} {t : ℕ}
    → IsValid s c
    → IsCurrent s c t
    → IsFound s c s.idle_thread
    → s.preempt ≡ false
    → Slept s c t (scheduler_put_task2sleep s t >>= scheduler_yield)
put_task2sleep-yield-Slept {s} {c} {t} v h idle off =
    let d = scheduler_put_task2sleep-Dozed v h off in
    let c1 = update c sleep_queue (c sleep_queue ++ t ∷ []) in
    let i = s.idle_thread in
    let ne : (i == t) ≡ false = ground (arith, idle.state, h.state, ==_iff i t) in
    let aside = d.spares i ne (record { nowhere = idle.nowhere; unlinked = idle.unlinked }) in
    let found : IsFound (interrupts_off d.result) c1 d.result.idle_thread = rw d.idle_same (record {
      state = ap (λ (f : ℕ → TaskState). f i) d.states ∙ rw ne idle.state;
      nowhere = aside.nowhere;
      unlinked = aside.unlinked;
    }) in
    let r =
      switch_to_next_task-Switched {s = interrupts_off d.result} (interrupts_off-IsValid d.valid)
        found refl in
    let sleeps : d.result.state t ≡ sleeping =
      ap (λ (f : ℕ → TaskState). f t) d.states ∙ ground arith in
    let next = next_or_idle r.choice i in
    let same : next_or_idle r.choice d.result.idle_thread ≡ next =
      ap (next_or_idle r.choice) d.idle_same in
    let current = subst (IsCurrent r.result r.held) same r.current in
    let last : r.held sleep_queue ≡ c sleep_queue ++ t ∷ [] =
      Chosen-asleep c1 r.held r.choice r.chosen ∙ ground arith in
    let other : (t == next) ≡ false =
      Edits.not_same t next (r.held sleep_queue)
        (ap (mem t) last ∙ ground (arith, mem-append t (c sleep_queue) (t ∷ [])))
        (current.nowhere sleep_queue) in
    let states =
      r.states
      ∙ ap (λ n. update d.result.state n running) same
      ∙ ap (λ (f : ℕ → TaskState). update f next running) d.states in
    record {
      result = r.result;
      choice = r.choice;
      held = r.held;
      runs =
          sleep_yield_runs s d.result r.result t d.runs
            (yield_sleeping_runs d.result t (d.curr_same ∙ h.loaded) sleeps ∙ r.runs);
      chosen = r.chosen;
      valid = r.valid;
      current = current;
      last = last;
      asleep = ap (λ (f : ℕ → TaskState). f t) states ∙ rw other (ground arith);
      states = states;
    }

pub find_from-not_ready :
    (n i : ℕ) (s : Sched) (c : ℕ → List ℕ) (j t : ℕ) (xs : List ℕ)
    → AreQueues s.rr s.queues c
    → i ≤ j
    → j < i + n
    → ((m : ℕ) → i ≤ m → m < j → c m ≡ [])
    → c j ≡ t ∷ xs
    → is_ready (s.state t) ≡ false
    → find_from n i s ≡ panic
find_from-not_ready zero i s c j t xs w lo hi below here st = absurd (omega arith)
find_from-not_ready (suc n) i s c j t xs w lo hi below here st = elim (Bool-cases (i == j)) [
  | inl e ↦
      let at_i : c i ≡ t ∷ xs = ap c ((==_iff i j).0 e) ∙ here in
      let p = Queues.pop_front-Popped s.rr s.queues c w i t xs at_i in
      unfold find_from in rw (p.runs, st)
  | inr e ↦
      let empty =
        Queues.pop_front-none s.rr (s.queues i)
          (rw (← below i (omega arith) (ground arith)) (w.each i)) in
      rw (find_from-empty n i s empty) (
        find_from-not_ready n (i + 1) s c j t xs w (ground arith) (omega arith)
          (λ m p q. below m (omega arith) q) here st)
]

-- A task that yields while it runs keeps the state RUNNING when it is put in the queue of its
-- priority. If no task of its priority or a higher one waits, the scheduler picks it at once, and
-- panics, since it is not ready.
pub scheduler_yield-running-panic :
    {s : Sched} {c : ℕ → List ℕ} {t : ℕ}
    → IsValid s c
    → IsCurrent s c t
    → ((p : ℕ) → p ≤ s.prio t → c p ≡ [])
    → scheduler_yield s ≡ panic
unfolding scheduler_yield find_task_to_run
scheduler_yield-running-panic {s} {c} {t} v h none_waits =
    let p = s.prio t in
    let m = Queues.insert_back-Moved v.queues t h.nowhere p in
    let s' = with_queue (interrupts_off s) p (m.links, m.rq) in
    let stuck =
      find_from-not_ready 5 0 s' (update c p (c p ++ t ∷ [])) p t [] m.valid (omega arith)
        (omega (arith, v.prio_in t))
        (λ q lo hi. (let e : (q == p) ≡ false = ground arith in rw e (none_waits q (omega arith))))
        (rw (Edits.==_refl, none_waits p (omega arith))) (rw h.state) in
    let runs : yield_as (interrupts_off s) (some t) ≡ panic =
      rw (h.state, h.unlinked.0, h.unlinked.1, m.runs, stuck) in
    ap (yield_as (interrupts_off s)) h.loaded ∙ runs
