-- ===== src/Reaper.antt =====
-- How dead tasks are cleared away in kernel/src/proc/scheduler.c: `scheduler_cleanup_task`, and one
-- round of the loop of `kernel_reaper`. The big lock is held throughout a cleanup.
pub mod Siblings
pub mod Clearing
pub mod Rounds
mod Tests
use munk_os.Prelude.{
  ℕ, zero, suc, ◌+◌, ◌-◌, ◌*◌, ◌/◌, ◌%◌, ◌^◌, bit_and, bit_or, Bool, true, false, List, [], ◌∷◌,
  ◌++◌, Option, none, some, Outcome, ok, panic, fault, out_of_fuel, ◌>>=◌, update, ◌==◌, ◌&&◌,
  if◌then◌else◌,
}
use munk_os.Links.{Ptr, null, node, poison, ptr_is, Links, set_next, set_prev, attach_front, detach}
use munk_os.FrameAlloc.{Buddy, buddy_alloc, buddy_free, page2idx}
use munk_os.FrameAlloc.Orders.{psize2order}
use munk_os.FrameAlloc.Startup.{page_size}
use munk_os.Scheduler.{
  Sched, TaskState, unitialized, ready, sleeping, killed, sleep_queue, with_state, is_null,
  insert_front, remove_from, scheduler_attempt_wake,
}
use munk_os.Preemption.{is_killed}
use munk_os.Scheduler.{reap_queue, with_queue}
use munk_os.Scheduler.Runqueue.{runqueue_pop_front}
use munk_os.Events.{Kevents, kevents_poll}
use munk_os.Tasks.{Tasks, kernel_stack_size}

-- The loop that kills the children, from `p` on.
unfoldable pub kill_children : ℕ → Links → Ptr → Sched → Outcome Sched
kill_children fuel l null s = ok s
kill_children fuel l poison s = fault
kill_children zero l (node child) s = out_of_fuel
kill_children (suc fuel) l (node child) s =
    kill_children fuel l (l.next child) (with_state s child killed)

-- If the task is its parent's first child, the next one is.
unfoldable pub leave_parent : Tasks → ℕ → Ptr → Outcome Tasks
leave_parent w t (node p) = ok (
    if ptr_is (w.first_child p) t
    then record w { first_child = update w.first_child p (w.siblings.next t) }
    else w)
leave_parent w t _ = fault

-- `if (task->sibling_next) ...` and `if (task->sibling_prev) ...`
abbrev pub leave_siblings : Links → ℕ → Outcome Links
leave_siblings l t = do
  k ← munk_os.Links.set_prev_at l (l.next t) (l.prev t)
  munk_os.Links.set_next_at k (k.prev t) (k.next t)

-- The stacks behind the first.
unfoldable pub free_kernel_stacks : List ℕ → Buddy → Outcome Buddy
free_kernel_stacks [] b = ok b
free_kernel_stacks (phys ∷ stacks) b = do
  order ← psize2order kernel_stack_size
  b' ← buddy_free b (phys / page_size) order
  free_kernel_stacks stacks b'

-- `stacks.data[0]` of a task without stacks is a read through NULL.
unfoldable pub free_stacks : List ℕ → ℕ → Buddy → Outcome Buddy
unfolding free_kernel_stacks
free_stacks [] size b = fault
free_stacks (phys ∷ stacks) size b = do
  order ← psize2order size
  b' ← buddy_free b (phys / page_size) order
  free_kernel_stacks stacks b'

unfoldable pub scheduler_cleanup_task : ℕ → Tasks → ℕ → Outcome Tasks
unfolding kill_children leave_parent free_stacks
scheduler_cleanup_task fuel w t =
    if is_killed (w.sched.state t)
    then if is_null (w.sched.rr.next t) && is_null (w.sched.rr.prev t)
      then (do
        s ← kill_children fuel w.siblings (w.first_child t) w.sched
        w1 ← leave_parent (record w { sched = s }) t (w.parent t)
        l ← leave_siblings w1.siblings t
        b ← free_stacks (w1.stacks t) (w1.stack_size t) w1.buddy
        ok (record w1 { siblings = l; buddy = b }))
      else panic
    else panic

cleanup_popped : ℕ → Option ℕ → Tasks → Outcome Tasks
cleanup_popped fuel none w = fault
cleanup_popped fuel (some t) w = scheduler_cleanup_task fuel w t

-- The first task of the reap queue is cleared away; its id is read before, through NULL if there is
-- none.
unfoldable pub reap : ℕ → Tasks → Outcome Tasks
unfolding cleanup_popped scheduler_cleanup_task
reap fuel w = do
  (popped, k, q) ← runqueue_pop_front w.sched.rr (w.sched.queues reap_queue)
  cleanup_popped fuel popped (record w { sched = with_queue w.sched reap_queue (k, q) })

after_poll : ℕ → Option ℕ × Tasks × Kevents × Sched → Outcome (Kevents × Tasks)
after_poll fuel (some zero, w, k, s) = do w' ← reap fuel (record w { sched = s }); ok (k, w')
after_poll fuel (some (suc n), w, k, s) = panic
after_poll fuel (none, w, k, s) = panic

-- One round of the loop; `away` is what the others do while the reaper sleeps.
unfoldable pub reap_round :
    (Tasks × Kevents × Sched → Outcome (Tasks × Kevents × Sched))
    → ℕ
    → ℕ
    → Kevents × Tasks
    → Outcome (Kevents × Tasks)
unfolding after_poll reap
reap_round away fuel reap_event (k, w) = do
  r ← kevents_poll away fuel (reap_event ∷ []) (w, k, w.sched)
  after_poll fuel r
