-- ===== src/Scheduler/Tests.antt =====
-- The scheduler on a small set of tasks: the idle task 0, the running task 1, the sleeping task 2
-- and the ready task 3.
use munk_os.Prelude.{
  ℕ, ◌≡◌, refl, Option, some, List, [], ◌∷◌, ◌++◌, arith, ◌==◌, if◌then◌else◌, false, ok, panic,
  ◌>>=◌,
}
use munk_os.Links.{Links, null, node}
use munk_os.Scheduler.Runqueue.{RunQueue, runqueue_pop_front, runqueue_insert_back}
use munk_os.Scheduler.Runqueue.Refinement.{IsQueue, queue}
use munk_os.Scheduler.{
  Sched, TaskState, running, ready, sleeping, sleep_queue, max_priorities, scheduler_attempt_wake,
  scheduler_put_task2sleep, find_task_to_run, switch_to_next_task, next_or_idle, scheduler_yield,
  insert_back,
}
use munk_os.Scheduler.Queues.{AreQueues}
use munk_os.Scheduler.Invariant.{IsValid, IsCurrent}
use munk_os.Scheduler.Waking.{moved_front, scheduler_attempt_wake-IsValid}
use munk_os.Scheduler.Selection.{Chosen, Searched, IsFound, find_task_to_run-Chosen}
use munk_os.Scheduler.Switching.{switch_to_next_task-IsValid}
use munk_os.Scheduler.Yielding.{scheduler_yield-running-panic}

abbrev pub state : ℕ → TaskState
state a = if a == 1 then running else if a == 2 then sleeping else ready

abbrev pub no_links : Links
no_links = record { next = λ a. null; prev = λ a. null }

abbrev pub prio : ℕ → ℕ
prio a = if a == 0 then 4 else 2

abbrev pub queues : ℕ → RunQueue
queues i =
    if i == 5
    then queue 1 (node 2) (node 2)
    else if i == 3
    then queue 1 (node 3) (node 3)
    else queue 0 null null

abbrev pub held : ℕ → List ℕ
held i = if i == 5 then 2 ∷ [] else if i == 3 then 3 ∷ [] else []

abbrev pub sched : Sched
sched = record {
  rr = no_links;
  state = state;
  prio = λ a. if a == 3 then 3 else if a == 0 then 4 else 2;
  queues = queues;
  curr_thread = some 1;
  idle_thread = 0;
  preempt = false;
}

pub held-AreQueues : AreQueues no_links queues held
held-AreQueues = record { each = λ i. ground arith; apart = λ i j e a h. ground arith }

pub sched-IsValid : IsValid sched held
sched-IsValid = record {
  queues = held-AreQueues;
  runnable = λ p a low i. ground arith;
  asleep = λ a i. ground arith;
  sleepers = λ a e. ground arith;
  dead = λ a i. ground arith;
  prio_in = λ a. ground arith;
}

pub sched-IsCurrent : IsCurrent sched held 1
sched-IsCurrent = record {
  loaded = refl;
  state = refl;
  nowhere = λ i. ground arith;
  unlinked = (refl, refl);
}

pub idle-IsFound : IsFound sched held 0
idle-IsFound = record { state = refl; nowhere = λ i. ground arith; unlinked = (refl, refl) }

find_task_to_run_runs : (find_task_to_run sched >>= λ (o, s). ok o) ≡ ok (some 3)
unfolding find_task_to_run runqueue_pop_front
find_task_to_run_runs = refl

yield_panics : scheduler_yield sched ≡ panic
unfolding scheduler_yield runqueue_insert_back runqueue_pop_front
yield_panics = refl

yield_after_sleep :
    (scheduler_put_task2sleep sched 1 >>= λ s. scheduler_yield s >>= λ s'. ok s'.curr_thread)
    ≡ ok (some 3)
unfolding scheduler_put_task2sleep scheduler_yield runqueue_insert_back runqueue_pop_front
    insert_back
yield_after_sleep = refl

scheduler_attempt_wake-IsValid_example :
    (s' : Sched) × (ys zs : List ℕ) × (scheduler_attempt_wake sched 2 ≡ ok s')
    × (2 ∷ [] ≡ ys ++ 2 ∷ zs)
    × IsValid s' (moved_front held sleep_queue ys 2 2 zs)
    × (s'.state 2 ≡ ready)
    × (s'.curr_thread ≡ some 1)
scheduler_attempt_wake-IsValid_example = scheduler_attempt_wake-IsValid sched-IsValid 2 refl

find_task_to_run-Chosen_example :
    (o : Option ℕ) × (d : ℕ → List ℕ) × Searched sched o d (find_task_to_run sched)
    × Chosen max_priorities 0 held o d
find_task_to_run-Chosen_example = find_task_to_run-Chosen sched-IsValid

switch_to_next_task-IsValid_example :
    (s' : Sched) × (o : Option ℕ) × (d : ℕ → List ℕ) × (switch_to_next_task sched ≡ ok s')
    × Chosen max_priorities 0 held o d
    × IsValid s' d
    × IsCurrent s' d (next_or_idle o 0)
switch_to_next_task-IsValid_example = switch_to_next_task-IsValid sched-IsValid idle-IsFound refl

scheduler_yield-running-panic_example : scheduler_yield sched ≡ panic
scheduler_yield-running-panic_example =
    scheduler_yield-running-panic sched-IsValid sched-IsCurrent (λ p h. ground arith)

-- A queue of three tasks.
abbrev three : Links
three = record {
  next = λ a. if a == 4 then node 5 else if a == 5 then node 6 else null;
  prev = λ a. if a == 6 then node 5 else if a == 5 then node 4 else null;
}

three-IsQueue : IsQueue three (queue 3 (node 4) (node 6)) (4 ∷ 5 ∷ 6 ∷ [])
three-IsQueue = record { chain = ground arith; count = refl }
