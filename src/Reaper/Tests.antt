-- ===== src/Reaper/Tests.antt =====
-- A dead task and its child, among the tasks of the tests of how tasks are made.
use munk_os.Prelude.{
  ℕ, ◌≡◌, refl, List, [], ◌∷◌, arith, ◌==◌, if◌then◌else◌, none, ok, panic, Outcome, ◌*◌,
}
use munk_os.Links.{null, node}
use munk_os.FrameAlloc.{Buddy, buddy_free}
use munk_os.FrameAlloc.Freelist.{list_link}
use munk_os.FrameAlloc.Bitmap.{bitmap_flip, bitmap_status}
use munk_os.FrameAlloc.Orders.{psize2order, halving}
use munk_os.Scheduler.{killed, switch_to_next_task}
use munk_os.Scheduler.Runqueue.Refinement.{queue}
use munk_os.Scheduler.Invariant
use munk_os.Scheduler.Tests.{state, queues, sched, held, held-AreQueues}
use munk_os.Tasks.{Tasks}
use munk_os.Tasks.Spawning.{IsValid}
use munk_os.Tasks.Tests.{buddy, tasks}
use munk_os.Events.Tests.{events}
use munk_os.Reaper.{free_stacks, scheduler_cleanup_task, reap_round}
use munk_os.Reaper.Rounds.{Reaped, reap_round-Reaped}
use munk_os.Reaper.Clearing.{
  IsDead, Cleared, scheduler_cleanup_task-Cleared, scheduler_cleanup_task-child-panic,
}

-- Task 1, a child of task 0, is dead; its child, task 3, is ready.
abbrev kids : ℕ → List ℕ
kids p = if p == 0 then 1 ∷ [] else if p == 1 then 3 ∷ [] else []

abbrev grieving : Tasks
grieving = record tasks {
  sched = record sched { state = λ a. if a == 1 then killed else state a; curr_thread = none };
  parent = λ t. if t == 3 then node 1 else node 0;
  first_child = λ p. if p == 0 then node 1 else if p == 1 then node 3 else null;
  stacks = λ t. (48 * 4096) ∷ [];
}

grieving-sched : Invariant.IsValid grieving.sched held
grieving-sched = record {
  queues = held-AreQueues;
  runnable = λ p a low i. ground arith;
  asleep = λ a i. ground arith;
  sleepers = λ a e. ground arith;
  dead = λ a i. ground arith;
  prio_in = λ a. ground arith;
}

grieving-IsValid : IsValid grieving held kids
grieving-IsValid = record {
  sched = grieving-sched;
  family = record {
    each = λ p. (if p == 0 then node 1 else if p == 1 then node 3 else null, ground arith);
    apart = λ p q e a i. ground arith;
  };
  unqueued = λ t le i. ground arith;
  no_child = λ t le p. ground arith;
  childless = λ t le. ground arith;
}

one-IsDead : IsDead grieving held kids 1 0 [] []
one-IsDead = record {
  state = refl;
  aside = record { nowhere = λ i. ground arith; unlinked = (refl, refl) };
  parent = refl;
  place = refl;
}

abbrev freed : Outcome Buddy → Buddy
freed (ok b) = b
freed _ = buddy

stack_back :
    free_stacks ((48 * 4096) ∷ []) 65536 buddy
    ≡ ok (freed (free_stacks ((48 * 4096) ∷ []) 65536 buddy))
unfolding free_stacks buddy_free psize2order halving bitmap_flip bitmap_status list_link
stack_back = refl

scheduler_cleanup_task-Cleared_example :
    Cleared grieving kids 1 0 [] []
      (freed (free_stacks ((48 * 4096) ∷ []) 65536 buddy))
      (scheduler_cleanup_task 1 grieving 1)
scheduler_cleanup_task-Cleared_example =
    scheduler_cleanup_task-Cleared 1 1 0 [] [] (freed (free_stacks ((48 * 4096) ∷ []) 65536 buddy))
      grieving-IsValid one-IsDead (omega arith) stack_back

scheduler_cleanup_task-child-panic_example :
    (w' : Tasks) × (scheduler_cleanup_task 1 grieving 1 ≡ ok w')
    × (switch_to_next_task w'.sched ≡ panic)
scheduler_cleanup_task-child-panic_example =
    scheduler_cleanup_task-child-panic 1 1 0 3 3 [] [] []
      (freed (free_stacks ((48 * 4096) ∷ []) 65536 buddy)) grieving-IsValid one-IsDead (omega arith)
      stack_back refl (omega arith) refl (λ i h. ground arith) refl

-- The dead task is to be reaped, and event 8, which is pending, stands for the reaper's.
abbrev held_dead : ℕ → List ℕ
held_dead i = if i == 6 then 1 ∷ [] else held i

abbrev mourning : Tasks
mourning = record grieving {
  sched = record grieving.sched {
    queues = λ i. if i == 6 then queue 1 (node 1) (node 1) else queues i;
  };
}

mourning-sched : Invariant.IsValid mourning.sched held_dead
mourning-sched = record {
  queues = record { each = λ i. ground arith; apart = λ i j e a h. ground arith };
  runnable = λ p a low i. ground arith;
  asleep = λ a i. ground arith;
  sleepers = λ a e. ground arith;
  dead = λ a i. ground arith;
  prio_in = λ a. ground arith;
}

mourning-IsValid : IsValid mourning held_dead kids
mourning-IsValid = record {
  sched = mourning-sched;
  family = grieving-IsValid.family;
  unqueued = λ t le i. ground arith;
  no_child = grieving-IsValid.no_child;
  childless = grieving-IsValid.childless;
}

reap_round-Reaped_example :
    Reaped events mourning held_dead kids 8 1 0 [] [] []
      (freed (free_stacks ((48 * 4096) ∷ []) 65536 buddy))
      (reap_round (λ x. ok x) 1 8 (events, mourning))
reap_round-Reaped_example =
    reap_round-Reaped (λ x. ok x) 1 8 events 1 0 [] [] []
      (freed (free_stacks ((48 * 4096) ∷ []) 65536 buddy)) mourning-IsValid (ground arith) refl refl
      refl (omega arith) stack_back
