-- ===== src/Reaper/Clearing.antt =====
-- `scheduler_cleanup_task` of kernel/src/proc/scheduler.c.
use munk_os.Prelude.{
  ℕ, zero, suc, ◌≡◌, ◌<◌, ◌≤◌, refl, ap, ◌∙◌, sym, fun_ext, arith, true, List, [], ◌∷◌, ◌++◌, mem,
  update, Outcome, ok, panic, ==_iff, length, if◌then◌else◌, Bool-cases, inl, inr, false,
}
use munk_os.Links.{Ptr, null, node, ptr_is, Links}
use munk_os.Links.Segments.{Seg}
use munk_os.FrameAlloc.{Buddy}
use munk_os.Scheduler.{
  Sched, TaskState, killed, max_priorities, with_state, switch_to_next_task, find_task_to_run,
}
use munk_os.Scheduler.Invariant
use munk_os.Scheduler.Yielding.{find_from-not_ready}
use munk_os.Tasks.{Tasks}
use munk_os.Tasks.Family.{AreChildren}
use munk_os.Reaper.{kill_children, leave_siblings, free_stacks, scheduler_cleanup_task}
use munk_os.Reaper.Siblings.{leave-AreChildren}
use munk_os.Tasks.Spawning.{IsValid}

-- The state of a task when the tasks `ts` have been killed.
abbrev pub slain : (ℕ → TaskState) → List ℕ → ℕ → TaskState
slain st ts a = if mem a ts then killed else st a

abbrev with_states : Sched → (ℕ → TaskState) → Sched
with_states s st = record s { state = st }

slain-cons :
    (st : ℕ → TaskState) (t : ℕ) (ts : List ℕ) → slain (update st t killed) ts ≡ slain st (t ∷ ts)
slain-cons st t ts = fun_ext (λ a. ground arith)

kill_next :
    (fuel : ℕ) (l : Links) (p : Ptr) (x : ℕ) (s : Sched)
    → p ≡ node x
    → kill_children (suc fuel) l p s ≡ kill_children fuel l (l.next x) (with_state s x killed)
unfolding kill_children
kill_next fuel l p x s e = rw e

-- With as much fuel as there are children, all of them are killed.
kill_children-slain :
    (fuel : ℕ) (l : Links) (back p : Ptr) (xs : List ℕ) (tail : Ptr) (s : Sched)
    → length xs ≤ fuel
    → Seg l back p xs tail null
    → kill_children fuel l p s ≡ ok (with_states s (slain s.state xs))
unfolding kill_children
kill_children-slain fuel l back p [] tail s f g = rw g.0
kill_children-slain zero l back p (x ∷ xs) tail s f g = absurd (omega arith)
kill_children-slain (suc fuel) l back p (x ∷ xs) tail s f g =
    kill_next fuel l p x s g.0
    ∙ kill_children-slain fuel l (node x) (l.next x) xs tail (with_state s x killed) (omega arith)
        g.3
    ∙ ap (λ st. ok (with_states s st)) (slain-cons s.state x xs)

-- The task that is cleared away: dead, in no queue, and between `ys` and `zs` among the children of
-- `p`.
pub record IsDead (w : Tasks) (c kids : ℕ → List ℕ) (t p : ℕ) (ys zs : List ℕ) : Type 0 where
  pub state : w.sched.state t ≡ killed
  pub aside : Invariant.IsAside w.sched.rr c t
  pub parent : w.parent t ≡ node p
  pub place : kids p ≡ ys ++ t ∷ zs

-- The outcome of clearing `t` away, with the buddy allocator `b`.
pub record Cleared (w : Tasks) (kids : ℕ → List ℕ) (t p : ℕ) (ys zs : List ℕ) (b : Buddy)
    (r : Outcome Tasks) : Type 0 where
  pub result : Tasks
  pub runs : r ≡ ok result
  pub family : AreChildren result.siblings result.first_child (update kids p (ys ++ zs))
  pub states : (a : ℕ) → result.sched.state a ≡ slain w.sched.state (kids t) a
  pub queues_same : result.sched.queues ≡ w.sched.queues
  pub links_same : result.sched.rr ≡ w.sched.rr
  pub buddy : result.buddy ≡ b

-- Writing back what is there changes nothing.
update_same : (f : ℕ → Ptr) (p : ℕ) → update f p (f p) ≡ f
update_same f p = fun_ext (λ i. ground (arith, ==_iff i p, λ (e : i ≡ p). ap f e))

-- The first child of `p` once `t` has left.
abbrev left : Tasks → ℕ → ℕ → ℕ → Ptr
left w t p =
    update w.first_child p
      (if ptr_is (w.first_child p) t then w.siblings.next t else w.first_child p)

abbrev cleared_away : Tasks → ℕ → ℕ → (ℕ → TaskState) → Links → Buddy → Tasks
cleared_away w t p st k b = record w {
  sched = with_states w.sched st;
  first_child = left w t p;
  siblings = k;
  buddy = b;
}

cleanup_runs :
    (fuel : ℕ) (w : Tasks) (t p : ℕ) (st : ℕ → TaskState) (k : Links) (b : Buddy)
    → w.sched.state t ≡ killed
    → w.sched.rr.next t ≡ null
    → w.sched.rr.prev t ≡ null
    → w.parent t ≡ node p
    → kill_children fuel w.siblings (w.first_child t) w.sched ≡ ok (with_states w.sched st)
    → leave_siblings w.siblings t ≡ ok k
    → free_stacks (w.stacks t) (w.stack_size t) w.buddy ≡ ok b
    → scheduler_cleanup_task fuel w t ≡ ok (cleared_away w t p st k b)
unfolding scheduler_cleanup_task
cleanup_runs fuel w t p st k b e f g h i j m = elim (Bool-cases (ptr_is (w.first_child p) t)) [
  | inl d ↦ rw (e, f, g, i, h, d, j, m)
  | inr d ↦
      let same : (update w.first_child p (w.first_child p)) ≡ w.first_child =
        update_same w.first_child p in
      rw (e, f, g, i, h, d, j, m)
        (ap (λ (u : ℕ → Ptr). ok (record (cleared_away w t p st k b) { first_child = u }))
          (sym same))
]

cleared-runs :
    (fuel : ℕ) {w : Tasks} {c kids : ℕ → List ℕ} (t p : ℕ) (ys zs : List ℕ) (b : Buddy)
    → IsValid w c kids
    → IsDead w c kids t p ys zs
    → length (kids t) ≤ fuel
    → free_stacks (w.stacks t) (w.stack_size t) w.buddy ≡ ok b
    → (k : Links) × (scheduler_cleanup_task fuel w t
        ≡ ok (cleared_away w t p (slain w.sched.state (kids t)) k b))
      × AreChildren k (left w t p) (update kids p (ys ++ zs))
cleared-runs fuel {w} {c} {kids} t p ys zs b v d f freed =
    let (tail, g) = v.family.each t in
    let (k, gone, family) = leave-AreChildren p t ys zs v.family d.place in
    (
      k,
      cleanup_runs fuel w t p (slain w.sched.state (kids t)) k b d.state d.aside.unlinked.0
          d.aside.unlinked.1 d.parent
          (kill_children-slain fuel w.siblings null (w.first_child t) (kids t) tail w.sched f g)
          gone freed,
      family,
    )

-- Clearing away a dead task, which is in no queue and a child of another task, with as much fuel as
-- it has children, when the allocator takes its stacks back: the task leaves its place among its
-- siblings, whose order stays, and each of its children is killed. No other task changes its state,
-- and no queue changes.
pub scheduler_cleanup_task-Cleared :
    (fuel : ℕ) {w : Tasks} {c kids : ℕ → List ℕ} (t p : ℕ) (ys zs : List ℕ) (b : Buddy)
    → IsValid w c kids
    → IsDead w c kids t p ys zs
    → length (kids t) ≤ fuel
    → free_stacks (w.stacks t) (w.stack_size t) w.buddy ≡ ok b
    → Cleared w kids t p ys zs b (scheduler_cleanup_task fuel w t)
scheduler_cleanup_task-Cleared fuel {w} {c} {kids} t p ys zs b v d f freed =
    let (k, runs, family) = cleared-runs fuel t p ys zs b v d f freed in
    record {
      result = cleared_away w t p (slain w.sched.state (kids t)) k b;
      runs = runs;
      family = family;
      states = λ a. refl;
      queues_same = refl;
      links_same = refl;
      buddy = refl;
    }

switch_panics :
    (s : Sched) → s.preempt ≡ false → find_task_to_run s ≡ panic → switch_to_next_task s ≡ panic
unfolding switch_to_next_task
switch_panics s e f = rw (e, f)

-- A child that is killed while it waits for the CPU stays in its run queue. When it comes to be the
-- first task there and no task of a higher priority waits, the scheduler panics: so after clearing
-- away a dead task with such a child, at once.
pub scheduler_cleanup_task-child-panic :
    (fuel : ℕ) {w : Tasks} {c kids : ℕ → List ℕ} (t p x j : ℕ) (ys zs xs : List ℕ) (b : Buddy)
    → IsValid w c kids
    → IsDead w c kids t p ys zs
    → length (kids t) ≤ fuel
    → free_stacks (w.stacks t) (w.stack_size t) w.buddy ≡ ok b
    → mem x (kids t) ≡ true
    → j < max_priorities
    → c j ≡ x ∷ xs
    → ((i : ℕ) → i < j → c i ≡ [])
    → w.sched.preempt ≡ false
    → (w' : Tasks) × (scheduler_cleanup_task fuel w t ≡ ok w')
      × (switch_to_next_task w'.sched ≡ panic)
unfolding find_task_to_run
scheduler_cleanup_task-child-panic fuel {w} {c} {kids} t p x j ys zs xs b v d f freed child low here
      below off =
    let (k, runs, family) = cleared-runs fuel t p ys zs b v d f freed in
    let after = cleared_away w t p (slain w.sched.state (kids t)) k b in
    (
      after,
      runs,
      switch_panics after.sched off (
          find_from-not_ready 5 0 after.sched c j x xs v.sched.queues (omega arith) (omega arith)
            (λ i lo hi. below i hi) here (rw child)),
    )
