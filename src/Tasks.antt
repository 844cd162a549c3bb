-- ===== src/Tasks.antt =====
-- The making of tasks in kernel/src/proc/scheduler.c, with `struct task` of
-- kernel/include/process.h: `scheduler_spawn_task`, `scheduler_new_kernel_thread`,
-- `scheduler_new_idle_thread` and `init_scheduling`. A task is named by the
-- number of the call of `kcalloc` that made it, since none is ever given back to the heap. The vector
-- of the stacks of a task is a list of physical addresses. Of the memory only the words written to
-- the stack of a new thread are modelled. The big lock is held throughout each function.
pub mod Family
pub mod Spawning
pub mod Starting
pub mod Idling
pub mod Tests
use munk_os.Prelude.{
  ℕ, zero, suc, ◌+◌, ◌-◌, ◌*◌, ◌/◌, ◌%◌, ◌^◌, bit_and, bit_or, Bool, true, false, List, [], ◌∷◌,
  ◌++◌, Option, none, some, Outcome, ok, panic, fault, out_of_fuel, ◌>>=◌, update, ◌==◌, ◌&&◌,
  if◌then◌else◌,
}
use munk_os.Links.{Ptr, null, node, poison, ptr_is, Links, set_next, set_prev, attach_front, detach}
use munk_os.FrameAlloc.{Buddy, buddy_alloc, buddy_free, page2idx}
use munk_os.FrameAlloc.Orders.{psize2order}
use munk_os.FrameAlloc.Startup.{page_size}
use munk_os.Scheduler.{
  Sched, TaskState, unitialized, ready, sleeping, killed, sleep_queue, with_state, is_null,
  insert_front, remove_from, scheduler_attempt_wake,
}
use munk_os.Preemption.{is_killed}

pub record Jmpbuf : Type 0 where
  pub rip : ℕ
  pub rsp : ℕ
  pub rbp : ℕ
  pub rbx : ℕ
  pub r12 : ℕ
  pub r13 : ℕ
  pub r14 : ℕ
  pub r15 : ℕ

abbrev pub cleared : Jmpbuf
cleared = record { rip = 0; rsp = 0; rbp = 0; rbx = 0; r12 = 0; r13 = 0; r14 = 0; r15 = 0 }

-- Addresses that the linker and the boot loader fix.
pub record Image : Type 0 where
  pub kernel_pmc : ℕ
  pub kernel_thread_spinup : ℕ
  pub kernel_idle : ℕ
  pub kernel_reaper : ℕ
  pub hhdm_offset : ℕ

pub record Tasks : Type 0 where
  pub sched : Sched
  pub buddy : Buddy
  -- the number of calls of `kcalloc` so far
  pub allocated : ℕ
  pub task_id_counter : ℕ
  pub kernel_task : Ptr
  -- of a task
  pub tid : ℕ → ℕ
  pub gid : ℕ → ℕ
  pub tg_leader : ℕ → Ptr
  pub parent : ℕ → Ptr
  pub first_child : ℕ → Ptr
  pub siblings : Links
  pub stacks : ℕ → List ℕ
  pub kernel_stack : ℕ → ℕ
  pub stack : ℕ → ℕ
  pub stack_size : ℕ → ℕ
  pub pmc : ℕ → ℕ
  pub context : ℕ → Jmpbuf
  pub fs_base : ℕ → ℕ
  pub flags : ℕ → ℕ
  -- the word at an address
  pub word : ℕ → ℕ

abbrev pub thread_group : ℕ
thread_group = 1

abbrev pub no_kernel_stack : ℕ
no_kernel_stack = 2

abbrev pub kernel_stack_size : ℕ
kernel_stack_size = 0x8000

abbrev pub is_kernel_thread : ℕ
is_kernel_thread = 1

abbrev pub is_kernel_idle : ℕ
is_kernel_idle = 2

abbrev pub task_stack_size : ℕ
task_stack_size = 64 * 1024

-- A new task, cleared by `kcalloc`, with the next id; an `int` holds its low 32 bits.
abbrev pub identify : Tasks → ℕ → Ptr → Tasks
identify w t parent_proc =
    let id = (w.task_id_counter + 1) % 2 ^ 64 in
    record w {
      allocated = w.allocated + 1;
      task_id_counter = id;
      tid = update w.tid t (id % 2 ^ 32);
      parent = update w.parent t parent_proc;
      first_child = update w.first_child t null;
      kernel_stack = update w.kernel_stack t 0;
      fs_base = update w.fs_base t 0;
    }

-- The task goes in front of its parent's children.
unfoldable pub join_group : Tasks → ℕ → Ptr → Outcome Tasks
join_group w t null = fault
join_group w t (node p) = do
  l ← attach_front w.siblings t (w.first_child p)
  ok (record w {
    gid = update w.gid t (w.gid p);
    tg_leader = update w.tg_leader t (node p);
    siblings = l;
    first_child = update w.first_child p (node t);
  })
join_group w t poison = fault

abbrev pub stand_alone : Tasks → ℕ → Tasks
stand_alone w t = record w {
  gid = update w.gid t (w.tid t);
  tg_leader = update w.tg_leader t null;
  siblings = set_next (set_prev w.siblings t null) t null;
}

-- A block for `size` bytes is pushed to the stacks of `t`; `page2phys` panics on NULL.
unfoldable pub push_stack : Tasks → ℕ → ℕ → Outcome (ℕ × Tasks)
push_stack w t size = do
  order ← psize2order size
  (page, b) ← buddy_alloc w.buddy order
  i ← elim page [ none ↦ panic | some pg ↦ page2idx b pg ]
  ok (
    i * page_size,
    record w { buddy = b; stacks = update w.stacks t (w.stacks t ++ (i * page_size) ∷ []) },
  )

-- As the source has it, the address of the kernel stack goes to `stack`.
abbrev pub push_kernel_stack : Tasks → ℕ → Outcome Tasks
push_kernel_stack w t = do
  (phys, w') ← push_stack w t kernel_stack_size
  ok (record w' { stack = update w'.stack t ((phys + kernel_stack_size) % 2 ^ 64) })

-- A new task stands in no queue.
abbrev pub park : Sched → ℕ → Sched
park s t = record s {
  rr = set_prev (set_next s.rr t null) t null;
  state = update s.state t unitialized;
  prio = update s.prio t 4;
}

unfoldable pub scheduler_spawn_task : Tasks → Ptr → ℕ → ℕ → ℕ → Outcome (ℕ × Tasks)
unfolding join_group push_stack
scheduler_spawn_task w parent_proc pmc flags stacksize = do
  let t = w.allocated
  let w0 = identify w t parent_proc
  w1 ←
      if bit_and flags thread_group == 0 then ok (stand_alone w0 t) else join_group w0 t parent_proc
  let w2 = record w1 {
    stacks = update w1.stacks t [];
    stack_size = update w1.stack_size t stacksize;
  }
  (phys, w3) ← push_stack w2 t stacksize
  let w4 = record w3 { stack = update w3.stack t ((phys + stacksize + 2 ^ 64 - 1) % 2 ^ 64) }
  w5 ←
      if bit_and flags no_kernel_stack == 0
      then push_kernel_stack w4 t
      else ok (record w4 { kernel_stack = update w4.kernel_stack t 0 })
  s ← insert_front (park w5.sched t) sleep_queue t
  ok (
    t,
    record w5 {
      context = update w5.context t cleared;
      flags = update w5.flags t 0;
      sched = s;
      pmc = update w5.pmc t pmc;
    },
  )

-- The thread starts at `rip` with its stack at `rsp`; the other registers stay zero.
abbrev pub set_up : Tasks → ℕ → ℕ → ℕ → ℕ → ℕ → TaskState → Tasks
set_up w t prio rip rsp flags st = record w {
  sched = record (with_state w.sched t st) { prio = update w.sched.prio t prio };
  stack = update w.stack t rsp;
  context = update w.context t (record cleared { rip = rip; rsp = rsp; rbp = rsp });
  fs_base = update w.fs_base t 0;
  flags = update w.flags t flags;
}

-- The entry and its argument are pushed to the stack, for `kernel_thread_spinup` to pop.
abbrev pub push_entry : Tasks → ℕ → ℕ → ℕ → Tasks
push_entry w top entry args = record w {
  word =
      update (update w.word ((top + 2 ^ 64 - 8) % 2 ^ 64) entry) ((top + 2 ^ 64 - 16) % 2 ^ 64)
        args;
}

module _ (m : Image) where
  unfoldable pub scheduler_new_kernel_thread : Tasks → ℕ → ℕ → ℕ → Outcome (ℕ × Tasks)
  unfolding scheduler_spawn_task
  scheduler_new_kernel_thread w entry args prio = do
    (t, w1) ← scheduler_spawn_task w w.kernel_task m.kernel_pmc thread_group task_stack_size
    let top = (w1.stack t + m.hhdm_offset) % 2 ^ 64
    let w2 =
        set_up (push_entry w1 top entry args) t prio m.kernel_thread_spinup
          ((top + 2 ^ 64 - 16) % 2 ^ 64) is_kernel_thread sleeping
    s ← scheduler_attempt_wake w2.sched t
    ok (t, record w2 { sched = s })

  unfoldable pub scheduler_new_idle_thread : Tasks → Outcome (ℕ × Tasks)
  unfolding scheduler_spawn_task
  scheduler_new_idle_thread w = do
    (t, w1) ←
        scheduler_spawn_task w w.kernel_task m.kernel_pmc (bit_or no_kernel_stack thread_group)
          task_stack_size
    let top = (w1.stack t + m.hhdm_offset) % 2 ^ 64
    let w2 = set_up w1 t 4 m.kernel_idle top (bit_or is_kernel_thread is_kernel_idle) ready
    s ← remove_from w2.sched sleep_queue t
    ok (t, record w2 { sched = s })

  unfoldable pub init_scheduling : Tasks → Outcome Tasks
  unfolding scheduler_new_kernel_thread
  init_scheduling w = do
    (t, w1) ← scheduler_spawn_task w null m.kernel_pmc no_kernel_stack task_stack_size
    (_, w2) ← scheduler_new_kernel_thread (record w1 { kernel_task = node t }) m.kernel_reaper 0 0
    ok w2
