-- ===== src/Tasks/Tests.antt =====
-- The tasks of the scheduler's tests, of which 0 is the kernel task. The allocator has a block of
-- sixteen pages from page 16 on and one of eight pages from page 32 on.
use munk_os.Prelude.{
  ℕ, ◌≡◌, refl, [], arith, ◌==◌, if◌then◌else◌, none, Option, ok, Outcome, ◌>>=◌, ◌+◌,
}
use munk_os.Links.{Ptr, null, node}
use munk_os.FrameAlloc.{Buddy, buddy_alloc, page2idx}
use munk_os.FrameAlloc.Freelist.{list_get}
use munk_os.FrameAlloc.Bitmap.{bitmap_flip}
use munk_os.FrameAlloc.Orders.{psize2order, halving}
use munk_os.Scheduler.{sleeping, insert_front, remove_from, scheduler_attempt_wake}
use munk_os.Scheduler.Runqueue.{runqueue_insert_front, runqueue_remove}
use munk_os.Scheduler.Runqueue.Refinement.{queue}
use munk_os.Scheduler.Tests.{no_links, sched, held, sched-IsValid}
use munk_os.Tasks.{
  Tasks, Image, cleared, scheduler_new_kernel_thread, scheduler_new_idle_thread, init_scheduling,
}
use munk_os.Tasks.Spawning.{IsValid, Gives}
use munk_os.Tasks.Starting.{Started, scheduler_new_kernel_thread-Started}
use munk_os.Tasks.Idling.{Idle, scheduler_new_idle_thread-Idle}

abbrev image : Image
image = record {
  kernel_pmc = 1;
  kernel_thread_spinup = 2;
  kernel_idle = 3;
  kernel_reaper = 4;
  hhdm_offset = 0x100000;
}

abbrev pub buddy : Buddy
buddy = record {
  links = no_links;
  list = λ o. if o == 4 then node 16 else if o == 3 then node 32 else null;
  bitmap = λ o n. 0;
  pages_count = 64;
  free = 24;
  allocation_count = 0;
  deallocation_count = 2;
}

abbrev taken : Outcome (Option ℕ × Buddy) → Buddy
taken (ok (p, b)) = b
taken _ = buddy

abbrev with_thread : Buddy
with_thread = taken (buddy_alloc buddy 4)

first_stack : Gives buddy 4 16 with_thread
unfolding buddy_alloc list_get bitmap_flip page2idx
first_stack = (refl, refl)

second_stack : Gives with_thread 3 32 (taken (buddy_alloc with_thread 3))
unfolding buddy_alloc list_get bitmap_flip page2idx
second_stack = (refl, refl)

abbrev pub tasks : Tasks
tasks = record {
  sched = sched;
  buddy = buddy;
  allocated = 4;
  task_id_counter = 4;
  kernel_task = node 0;
  tid = λ t. t + 1;
  gid = λ t. 1;
  tg_leader = λ t. null;
  parent = λ t. node 0;
  first_child = λ t. null;
  siblings = no_links;
  stacks = λ t. [];
  kernel_stack = λ t. 0;
  stack = λ t. 0;
  stack_size = λ t. 65536;
  pmc = λ t. 1;
  context = λ t. cleared;
  fs_base = λ t. 0;
  flags = λ t. 1;
  word = λ a. 0;
}

tasks-IsValid : IsValid tasks held (λ t. [])
tasks-IsValid = record {
  sched = sched-IsValid;
  family = record { each = λ p. (null, (refl, refl)); apart = λ p q e a i. ground arith };
  unqueued = λ t le i. ground arith;
  no_child = λ t le p. refl;
  childless = λ t le. refl;
}

scheduler_new_kernel_thread-Started_example :
    Started image tasks held
      (λ t. [])
      0
      77
      5
      2
      16
      32
      (scheduler_new_kernel_thread image tasks 77 5 2)
scheduler_new_kernel_thread-Started_example =
    scheduler_new_kernel_thread-Started image 0 77 5 2 16 32 with_thread
      (taken (buddy_alloc with_thread 3)) tasks-IsValid refl (omega arith) (omega arith) first_stack
      second_stack

scheduler_new_idle_thread-Idle_example :
    Idle image tasks held (λ t. []) 0 16 (scheduler_new_idle_thread image tasks)
scheduler_new_idle_thread-Idle_example =
    scheduler_new_idle_thread-Idle image 0 16 with_thread tasks-IsValid refl (omega arith)
      first_stack

-- Before `init_scheduling`: no task, and the allocator has two blocks of sixteen pages.
abbrev boot : Tasks
boot = record tasks {
  sched = record sched {
    state = λ a. sleeping;
    queues = λ i. queue 0 null null;
    curr_thread = none;
  };
  buddy = record buddy {
    links = record {
      next = λ n. if n == 16 then node 48 else null;
      prev = λ n. if n == 48 then node 16 else null;
    };
  };
  allocated = 0;
  task_id_counter = 0;
  kernel_task = null;
}

abbrev first_of : ℕ → Outcome Tasks → Outcome (Ptr × Ptr)
first_of i r = do w ← r; ok ((w.sched.queues i).head, w.parent 1)

-- Afterwards the reaper's thread, number 1, is the first of the highest priority, and a child of the
-- kernel task 0.
init_scheduling_starts_reaper : first_of 0 (init_scheduling image boot) ≡ ok (node 1, node 0)
unfolding init_scheduling buddy_alloc list_get bitmap_flip page2idx psize2order halving insert_front
    runqueue_insert_front scheduler_attempt_wake remove_from runqueue_remove
init_scheduling_starts_reaper = refl
