-- ===== src/Tasks/Starting.antt =====
-- `scheduler_new_kernel_thread` and `scheduler_new_idle_thread` of kernel/src/proc/scheduler.c.
use munk_os.Prelude.{
  ℕ, ◌+◌, ◌*◌, ◌%◌, ◌^◌, ◌-◌, ◌≡◌, ◌<◌, refl, ap, ◌∙◌, fun_ext, arith, false, List, [], ◌∷◌, update,
  Outcome, ok, ◌==◌, ==_iff,
}
use mathlib.Core.Path.{subst}
use munk_os.Links.{node, Links}
use munk_os.Links.Edits
use munk_os.FrameAlloc.{Buddy}
use munk_os.FrameAlloc.Orders.{psize2order, halving}
use munk_os.FrameAlloc.Startup.{page_size}
use munk_os.Scheduler.{
  Sched, TaskState, unitialized, ready, sleeping, sleep_queue, reap_queue, max_priorities,
  with_state, scheduler_attempt_wake, insert_front,
}
use munk_os.Scheduler.Queues.{Nowhere}
use munk_os.Scheduler.Invariant
use munk_os.Scheduler.Waking.{moved_front, wake-front}
use munk_os.Tasks.{
  Tasks, Image, identify, join_group, park, set_up, push_entry, kernel_stack_size, task_stack_size,
  is_kernel_thread, scheduler_spawn_task, scheduler_new_kernel_thread,
}
use munk_os.Tasks.Family.{AreChildren}
use munk_os.Tasks.Spawning.{
  IsValid, Gives, ahead, joined, pushed, sized, stack_at, born, push_stack-runs, park-Parked,
  spawn_with_kernel_stack, join-AreChildren,
}

pub task_stack_order : psize2order task_stack_size ≡ ok 4
unfolding psize2order halving
task_stack_order = refl

kernel_stack_order : psize2order kernel_stack_size ≡ ok 3
unfolding psize2order halving
kernel_stack_order = refl

-- The scheduler's part of setting a new task up.
abbrev pub told : Sched → ℕ → ℕ → TaskState → Sched
told s t prio st = record (with_state s t st) { prio = update s.prio t prio }

pub told-IsValid :
    {s : Sched} (c : ℕ → List ℕ) (t prio : ℕ)
    → Invariant.IsValid s (ahead c sleep_queue t)
    → Nowhere t c
    → prio < max_priorities
    → Invariant.IsValid (told s t prio sleeping) (ahead c sleep_queue t)
told-IsValid {s} c t prio v out low = record {
  queues = v.queues;
  runnable = λ p a l i. ground (arith, v.runnable p a l i, Edits.not_same a t (c p), out p);
  asleep = λ a i. ground (arith, v.asleep a i);
  sleepers = λ a e. ground (arith, v.sleepers a, ==_iff a t);
  dead = λ a i. ground (arith, v.dead a i, Edits.not_same a t (c reap_queue), out reap_queue);
  prio_in = λ a. ground (arith, v.prio_in a);
}

-- From the front of the sleep queue to the front of a run queue.
moved_from_sleep :
    (c : ℕ → List ℕ) (t prio k : ℕ)
    → k ≡ prio
    → prio < max_priorities
    → moved_front (ahead c sleep_queue t) sleep_queue [] k t (c sleep_queue) ≡ ahead c prio t
moved_from_sleep c t prio k e low = rw e (fun_ext (λ i. ground arith))

-- The states of a task that goes from new to sleeping to ready.
ready_states :
    (st st1 st3 : ℕ → TaskState) (t : ℕ)
    → st1 ≡ update st t unitialized
    → st3 ≡ update (update st1 t sleeping) t ready
    → (a : ℕ) → st3 a ≡ update st t ready a
ready_states st st1 st3 t e f a = ap (λ (g : ℕ → TaskState). g a) f ∙ rw e (ground arith)

new_prios :
    (pr pr1 pr3 : ℕ → ℕ) (t prio : ℕ)
    → pr1 ≡ update pr t 4
    → pr3 ≡ update pr1 t prio
    → (a : ℕ) → pr3 a ≡ update pr t prio a
new_prios pr pr1 pr3 t prio e f a = ap (λ (g : ℕ → ℕ). g a) f ∙ rw e (ground arith)

-- A task starts with the two words for `kernel_thread_spinup` on its stack.
abbrev pub slot : ℕ → ℕ → ℕ
slot top n = (top + 2 ^ 64 - n) % 2 ^ 64

-- The outcome of making a kernel thread `w.allocated` as a child of `p`, whose stacks start at the
-- pages `i` and `j`.
pub record Started (m : Image) (w : Tasks) (c kids : ℕ → List ℕ) (p entry args prio i j : ℕ)
    (r : Outcome (ℕ × Tasks)) : Type 0 where
  pub result : Tasks
  pub runs : r ≡ ok (w.allocated, result)
  pub valid : IsValid result (ahead c prio w.allocated) (ahead kids p w.allocated)
  pub states : (a : ℕ) → result.sched.state a ≡ update w.sched.state w.allocated ready a
  pub prios : (a : ℕ) → result.sched.prio a ≡ update w.sched.prio w.allocated prio a
  pub curr_same : result.sched.curr_thread ≡ w.sched.curr_thread
  pub idle_same : result.sched.idle_thread ≡ w.sched.idle_thread
  pub spares :
      (a : ℕ)
      → a < w.allocated
      → Invariant.IsAside w.sched.rr c a
      → Invariant.IsAside result.sched.rr (ahead c prio w.allocated) a
  pub starts_at : (result.context w.allocated).rip ≡ m.kernel_thread_spinup
  pub stack_top :
      (result.context w.allocated).rsp
      ≡ slot (((j * page_size + kernel_stack_size) % 2 ^ 64 + m.hhdm_offset) % 2 ^ 64) 16
  pub argument : result.word (result.context w.allocated).rsp ≡ args
  pub function : result.word (((result.context w.allocated).rsp + 8) % 2 ^ 64) ≡ entry
  pub stacks : result.stacks w.allocated ≡ (i * page_size) ∷ (j * page_size) ∷ []
  pub group : result.gid w.allocated ≡ w.gid p
  pub parent : result.parent w.allocated ≡ node p

thread_runs :
    (m : Image) (w w1 : Tasks) (entry args prio : ℕ) (s : Sched)
    → scheduler_spawn_task w w.kernel_task m.kernel_pmc 1 task_stack_size ≡ ok (w.allocated, w1)
    → (let top = (w1.stack w.allocated + m.hhdm_offset) % 2 ^ 64 in
        let w2 =
          set_up
            (push_entry w1 top entry args)
            w.allocated
            prio
            m.kernel_thread_spinup
            (slot top 16)
            is_kernel_thread
            sleeping in
        scheduler_attempt_wake w2.sched w.allocated ≡ ok s
        → scheduler_new_kernel_thread m w entry args prio
          ≡ ok (w.allocated, record w2 { sched = s }))
unfolding scheduler_new_kernel_thread
thread_runs m w w1 entry args prio s e f = rw (e, f)

words :
    (word : ℕ → ℕ) (top entry args : ℕ)
    → (update (update word (slot top 8) entry) (slot top 16) args (slot top 16) ≡ args)
      × (update (update word (slot top 8) entry) (slot top 16) args ((slot top 16 + 8) % 2 ^ 64)
          ≡ entry)
words word top entry args =
    let e : (slot top 16 + 8) % 2 ^ 64 ≡ slot top 8 = omega arith in
    let ne : (slot top 8 == slot top 16) ≡ false = ground arith in
    (rw Edits.==_refl, rw (e, ne, Edits.==_refl))

-- A new task makes the queues and families of the tasks before it longer by itself alone.
pub grown-IsValid :
    {w : Tasks} {c kids : ℕ → List ℕ} (w' : Tasks) (d : ℕ → List ℕ) (p : ℕ)
    → IsValid w c kids
    → Invariant.IsValid w'.sched d
    → ((a : ℕ) → (a == w.allocated) ≡ false → Nowhere a c → Nowhere a d)
    → w'.allocated ≡ w.allocated + 1
    → p < w.allocated
    → AreChildren w'.siblings w'.first_child (ahead kids p w.allocated)
    → IsValid w' d (ahead kids p w.allocated)
grown-IsValid {w} {c} {kids} w' d p v s out e low g = record {
  sched = s;
  family = g;
  unqueued = λ t le. out t (ground arith) (v.unqueued t (omega arith));
  no_child = λ t le q. ground (arith, v.no_child t (omega arith) q, v.no_child t (omega arith) p);
  childless = λ t le. ground (arith, v.childless t (omega arith));
}

-- The task as `scheduler_spawn_task` leaves it, with the sibling links `l` and the scheduler `s`.
abbrev with_stacks : Image → Tasks → ℕ → Links → ℕ → ℕ → Buddy → Buddy → Sched → Tasks
with_stacks m w p l i j b1 b2 s =
    let t = w.allocated in
    let w1 = joined (identify w t (node p)) t p l in
    let w3 = pushed (sized w1 t task_stack_size) t i b1 in
    let w4 = stack_at w3 t ((i * page_size + task_stack_size + 2 ^ 64 - 1) % 2 ^ 64) in
    let w5 = pushed w4 t j b2 in
    born (stack_at w5 t ((j * page_size + kernel_stack_size) % 2 ^ 64)) t m.kernel_pmc s

spawn_thread :
    (m : Image) (w : Tasks) (p i j : ℕ) (b1 b2 : Buddy) (l : Links) (s : Sched)
    → w.kernel_task ≡ node p
    → join_group (identify w w.allocated (node p)) w.allocated (node p)
      ≡ ok (joined (identify w w.allocated (node p)) w.allocated p l)
    → Gives w.buddy 4 i b1
    → Gives b1 3 j b2
    → insert_front (park w.sched w.allocated) sleep_queue w.allocated ≡ ok s
    → scheduler_spawn_task w w.kernel_task m.kernel_pmc 1 task_stack_size
      ≡ ok (w.allocated, with_stacks m w p l i j b1 b2 s)
spawn_thread m w p i j b1 b2 l s root runs first second queued =
    let t = w.allocated in
    let w1 = joined (identify w t (node p)) t p l in
    let w3 = pushed (sized w1 t task_stack_size) t i b1 in
    let w4 = stack_at w3 t ((i * page_size + task_stack_size + 2 ^ 64 - 1) % 2 ^ 64) in
    ap (λ q. scheduler_spawn_task w q m.kernel_pmc 1 task_stack_size) root
    ∙ spawn_with_kernel_stack w w1 w3 (pushed w4 t j b2) p m.kernel_pmc task_stack_size
        (i * page_size) (j * page_size) s runs
        (push_stack-runs (sized w1 t task_stack_size) t task_stack_size 4 i b1 task_stack_order
          first)
        (push_stack-runs w4 t kernel_stack_size 3 j b2 kernel_stack_order second) queued

-- A kernel thread of one of the five priorities, whose parent is a task `p` that has been made, when
-- the allocator finds its two stacks: the call returns, the thread is the next task, the first child
-- of `p` and in its thread group, ready and in front of the queue of its priority; no other task
-- changes its state, its priority or the queue it is in. It starts at `kernel_thread_spinup` with its
-- stack 16 bytes below the end of the kernel stack, where the argument and then the entry are.
pub scheduler_new_kernel_thread-Started :
    (m : Image) {w : Tasks} {c kids : ℕ → List ℕ} (p entry args prio i j : ℕ) (b1 b2 : Buddy)
    → IsValid w c kids
    → w.kernel_task ≡ node p
    → p < w.allocated
    → prio < max_priorities
    → Gives w.buddy 4 i b1
    → Gives b1 3 j b2
    → Started m w c kids p entry args prio i j (scheduler_new_kernel_thread m w entry args prio)
scheduler_new_kernel_thread-Started m {w} {c} {kids} p entry args prio i j b1 b2 v root low small
      first second =
    let t = w.allocated in
    let out = v.unqueued t (omega arith) in
    let (l, runs1, g) = join-AreChildren p v low in
    let z = park-Parked v.sched t out in
    let w6 = with_stacks m w p l i j b1 b2 z.result in
    let spawned = spawn_thread m w p i j b1 b2 l z.result root runs1 first second z.runs in
    let top = (w6.stack t + m.hhdm_offset) % 2 ^ 64 in
    let base = ((j * page_size + kernel_stack_size) % 2 ^ 64 + m.hhdm_offset) % 2 ^ 64 in
    let w7 =
      set_up (push_entry w6 top entry args) t prio m.kernel_thread_spinup (slot top 16)
        is_kernel_thread sleeping in
    let (s, runs2, valid, states, prios, curr, idle, spares) =
      wake-front {s = w7.sched} {c = ahead c sleep_queue t} t (c sleep_queue)
        (told-IsValid c t prio z.valid out small) refl (rw Edits.==_refl) in
    let w8 = record w7 { sched = s } in
    let held = moved_from_sleep c t prio (w7.sched.prio t) (rw Edits.==_refl) small in
    let valid' = subst (Invariant.IsValid s) held valid in
    record {
      result = w8;
      runs = thread_runs m w w6 entry args prio s spawned runs2;
      valid =
          grown-IsValid w8 (ahead c prio t) p v valid' (λ a ne o k. ground (arith, o k, o prio))
            refl low g;
      states = ready_states w.sched.state z.result.state s.state t z.states states;
      prios = new_prios w.sched.prio z.result.prio s.prio t prio z.prios prios;
      curr_same = curr ∙ z.curr_same;
      idle_same = idle ∙ z.idle_same;
      spares = λ a below h.
          subst (λ (d : ℕ → List ℕ). Invariant.IsAside s.rr d a) held
            (spares a (z.spares a (ground arith) h));
      starts_at = rw Edits.==_refl;
      stack_top = rw Edits.==_refl;
      argument = rw Edits.==_refl ((words w6.word base entry args).0);
      function = rw Edits.==_refl ((words w6.word base entry args).1);
      stacks = rw Edits.==_refl;
      group = rw Edits.==_refl;
      parent = rw Edits.==_refl;
    }
