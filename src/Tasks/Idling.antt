-- ===== src/Tasks/Idling.antt =====
-- `scheduler_new_idle_thread` of kernel/src/proc/scheduler.c: what it returns can be the idle task.
use munk_os.Prelude.{
  ℕ, ◌+◌, ◌*◌, ◌%◌, ◌^◌, ◌-◌, ◌≡◌, ◌<◌, refl, ap, ◌∙◌, fun_ext, arith, List, [], ◌∷◌, ◌++◌, update,
  Outcome, ok, ==_iff,
}
use mathlib.Core.Path.{subst}
use munk_os.Links.{node, Links}
use munk_os.Links.Edits
use munk_os.FrameAlloc.{Buddy}
use munk_os.FrameAlloc.Startup.{page_size}
use munk_os.Scheduler.{Sched, ready, sleep_queue, reap_queue, with_queue, remove_from, insert_front}
use munk_os.Scheduler.Runqueue.{runqueue_remove}
use munk_os.Scheduler.Queues
use munk_os.Scheduler.Queues.{Nowhere, AreQueues}
use munk_os.Scheduler.Invariant
use munk_os.Scheduler.Selection.{IsFound}
use munk_os.Tasks.{
  Tasks, Image, identify, join_group, park, set_up, task_stack_size, scheduler_spawn_task,
  scheduler_new_idle_thread,
}
use munk_os.Tasks.Spawning.{
  IsValid, Gives, ahead, joined, pushed, sized, stack_at, born, push_stack-runs, park-Parked,
  spawn_without_kernel_stack, join-AreChildren,
}
use munk_os.Tasks.Starting.{told, grown-IsValid, task_stack_order}

taken_back :
    (c : ℕ → List ℕ) (t : ℕ) → update (ahead c sleep_queue t) sleep_queue ([] ++ c sleep_queue) ≡ c
taken_back c t =
    fun_ext (λ i. ground (arith, ==_iff i sleep_queue, λ (e : i ≡ sleep_queue). ap c e))

-- A task at the front of the sleep queue that has been set up as the idle task is taken out.
module _ {s : Sched} (c : ℕ → List ℕ) (t : ℕ) (v : Invariant.IsValid s (ahead c sleep_queue t))
    (out : Nowhere t c) where
  removal :
      Queues.Freed s.rr s.queues sleep_queue t
        (update (ahead c sleep_queue t) sleep_queue ([] ++ c sleep_queue))
        (runqueue_remove s.rr (s.queues sleep_queue) t)
  removal = Queues.remove-Freed v.queues sleep_queue [] t (c sleep_queue) refl

  idled : Sched
  idled = with_queue (told s t 4 ready) sleep_queue (removal.links, removal.rq)

  idled-runs : remove_from (told s t 4 ready) sleep_queue t ≡ ok idled
  unfolding remove_from idled
  idled-runs = rw removal.runs

  idled-IsValid : Invariant.IsValid idled c
  unfolding idled
  idled-IsValid = record {
    queues =
        subst (AreQueues removal.links (update s.queues sleep_queue removal.rq)) (taken_back c t)
          removal.valid;
    runnable = λ p a low i. ground (arith, v.runnable p a low, Edits.not_same a t (c p) i (out p));
    asleep =
        λ a i. ground (arith, v.asleep a, Edits.not_same a t (c sleep_queue) i (out sleep_queue));
    sleepers = λ a e. ground (arith, v.sleepers a);
    dead = λ a i. ground (arith, v.dead a, Edits.not_same a t (c reap_queue) i (out reap_queue));
    prio_in = λ a. ground (arith, v.prio_in a);
  }

  idled-IsFound : IsFound idled c t
  unfolding idled
  idled-IsFound = record { state = rw Edits.==_refl; nowhere = out; unlinked = removal.unlinked }

-- The outcome of making an idle thread as a child of `p`, whose stack starts at the page `i`.
pub record Idle (m : Image) (w : Tasks) (c kids : ℕ → List ℕ) (p i : ℕ) (r : Outcome (ℕ × Tasks))
    : Type 0 where
  pub result : Tasks
  pub runs : r ≡ ok (w.allocated, result)
  pub valid : IsValid result c (ahead kids p w.allocated)
  pub found : IsFound result.sched c w.allocated
  pub curr_same : result.sched.curr_thread ≡ w.sched.curr_thread
  pub starts_at : (result.context w.allocated).rip ≡ m.kernel_idle
  pub stacks : result.stacks w.allocated ≡ (i * page_size) ∷ []

abbrev with_stack : Image → Tasks → ℕ → Links → ℕ → Buddy → Sched → Tasks
with_stack m w p l i b s =
    let t = w.allocated in
    let w3 = pushed (sized (joined (identify w t (node p)) t p l) t task_stack_size) t i b in
    born
      (record (stack_at w3 t ((i * page_size + task_stack_size + 2 ^ 64 - 1) % 2 ^ 64)) {
        kernel_stack = update w3.kernel_stack t 0;
      })
      t m.kernel_pmc s

spawn_idle :
    (m : Image) (w : Tasks) (p i : ℕ) (b : Buddy) (l : Links) (s : Sched)
    → w.kernel_task ≡ node p
    → join_group (identify w w.allocated (node p)) w.allocated (node p)
      ≡ ok (joined (identify w w.allocated (node p)) w.allocated p l)
    → Gives w.buddy 4 i b
    → insert_front (park w.sched w.allocated) sleep_queue w.allocated ≡ ok s
    → scheduler_spawn_task w w.kernel_task m.kernel_pmc 3 task_stack_size
      ≡ ok (w.allocated, with_stack m w p l i b s)
spawn_idle m w p i b l s root runs block queued =
    let t = w.allocated in
    let w1 = joined (identify w t (node p)) t p l in
    ap (λ q. scheduler_spawn_task w q m.kernel_pmc 3 task_stack_size) root
    ∙ spawn_without_kernel_stack w w1 (pushed (sized w1 t task_stack_size) t i b) p m.kernel_pmc
        task_stack_size (i * page_size) s runs
        (push_stack-runs (sized w1 t task_stack_size) t task_stack_size 4 i b task_stack_order
          block)
        queued

idle_runs :
    (m : Image) (w w1 : Tasks) (s : Sched)
    → scheduler_spawn_task w w.kernel_task m.kernel_pmc 3 task_stack_size ≡ ok (w.allocated, w1)
    → (let w2 =
          set_up w1 w.allocated 4 m.kernel_idle
            ((w1.stack w.allocated + m.hhdm_offset) % 2 ^ 64)
            3
            ready in
        remove_from w2.sched sleep_queue w.allocated ≡ ok s
        → scheduler_new_idle_thread m w ≡ ok (w.allocated, record w2 { sched = s }))
unfolding scheduler_new_idle_thread
idle_runs m w w1 s e f = rw (e, f)

-- An idle thread whose parent is a task `p` that has been made, when the allocator finds its stack:
-- the call returns, the thread is the next task, ready and in no queue, as `switch_to_next_task` wants
-- the idle task to be, and it starts at `kernel_idle`. The queues hold what they held.
pub scheduler_new_idle_thread-Idle :
    (m : Image) {w : Tasks} {c kids : ℕ → List ℕ} (p i : ℕ) (b : Buddy)
    → IsValid w c kids
    → w.kernel_task ≡ node p
    → p < w.allocated
    → Gives w.buddy 4 i b
    → Idle m w c kids p i (scheduler_new_idle_thread m w)
unfolding idled
scheduler_new_idle_thread-Idle m {w} {c} {kids} p i b v root low block =
    let t = w.allocated in
    let out = v.unqueued t (omega arith) in
    let (l, runs1, g) = join-AreChildren p v low in
    let z = park-Parked v.sched t out in
    let w6 = with_stack m w p l i b z.result in
    let spawned = spawn_idle m w p i b l z.result root runs1 block z.runs in
    let w7 = set_up w6 t 4 m.kernel_idle ((w6.stack t + m.hhdm_offset) % 2 ^ 64) 3 ready in
    let s = idled c t z.valid out in
    let w8 = record w7 { sched = s } in
    record {
      result = w8;
      runs = idle_runs m w w6 s spawned (idled-runs c t z.valid out);
      valid = grown-IsValid w8 c p v (idled-IsValid c t z.valid out) (λ a ne o. o) refl low g;
      found = idled-IsFound c t z.valid out;
      curr_same = z.curr_same;
      starts_at = rw Edits.==_refl;
      stacks = rw Edits.==_refl;
    }
