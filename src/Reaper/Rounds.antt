-- ===== src/Reaper/Rounds.antt =====
-- A round of the loop of `kernel_reaper` in kernel/src/proc/scheduler.c.
use munk_os.Prelude.{
  ℕ, ◌≡◌, ◌≢◌, ◌≤◌, refl, ap, sym, arith, List, [], ◌∷◌, ◌++◌, mem, update, Outcome, ok, some,
  length,
}
use mathlib.Core.Path.{subst}
use munk_os.Links.{node, Links}
use munk_os.FrameAlloc.{Buddy}
use munk_os.Scheduler.{Sched, killed, reap_queue, with_queue}
use munk_os.Scheduler.Runqueue.{RunQueue, runqueue_pop_front}
use munk_os.Scheduler.Queues
use munk_os.Scheduler.Queues.{Nowhere}
use munk_os.Scheduler.Invariant
use munk_os.Events.{Kevents, kevents_poll}
use munk_os.Events.Polling.{taken_off, kevents_poll-first}
use munk_os.Tasks.{Tasks}
use munk_os.Tasks.Family.{AreChildren}
use munk_os.Tasks.Spawning.{IsValid}
use munk_os.Reaper.{free_stacks, scheduler_cleanup_task, reap, reap_round}
use munk_os.Reaper.Clearing.{IsDead, slain, scheduler_cleanup_task-Cleared}

-- The first task leaves the reap queue.
module _ {s : Sched} {c : ℕ → List ℕ} (v : Invariant.IsValid s c) (t : ℕ) (xs : List ℕ)
    (here : c reap_queue ≡ t ∷ xs) where
  popped : Queues.Popped s.rr s.queues reap_queue t (update c reap_queue xs)
  popped = Queues.pop_front-Popped s.rr s.queues c v.queues reap_queue t xs here

  without : Sched
  without = with_queue s reap_queue (popped.links, popped.rq)

  without-IsValid : Invariant.IsValid without (update c reap_queue xs)
  unfolding without
  without-IsValid = record {
    queues = popped.valid;
    runnable = λ p a low i. ground (arith, v.runnable p a low);
    asleep = λ a i. v.asleep a i;
    sleepers = λ a e. v.sleepers a e;
    dead = λ a i. v.dead a (rw here (ground arith));
    prio_in = v.prio_in;
  }

  without-killed : s.state t ≡ killed
  without-killed = v.dead t (rw here (ground arith))

  without-IsAside : Invariant.IsAside without.rr (update c reap_queue xs) t
  unfolding without
  without-IsAside = record { nowhere = popped.nowhere; unlinked = popped.unlinked }

reap_runs :
    (fuel : ℕ) (w : Tasks) (t : ℕ) (k : Links) (q : RunQueue) (r : Outcome Tasks)
    → runqueue_pop_front w.sched.rr (w.sched.queues reap_queue) ≡ ok (some t, k, q)
    → scheduler_cleanup_task fuel (record w { sched = with_queue w.sched reap_queue (k, q) }) t ≡ r
    → reap fuel w ≡ r
unfolding reap
reap_runs fuel w t k q r e f = rw e f

round_runs :
    (away : Tasks × Kevents × Sched → Outcome (Tasks × Kevents × Sched)) (fuel reap_event : ℕ)
    (k k' : Kevents) (w w' : Tasks)
    → kevents_poll away fuel (reap_event ∷ []) (w, k, w.sched) ≡ ok (some 0, w, k', w.sched)
    → reap fuel w ≡ ok w'
    → reap_round away fuel reap_event (k, w) ≡ ok (k', w')
unfolding reap_round
round_runs away fuel reap_event k k' w w' e f = rw (e, f)

-- The outcome of a round that clears away `t`, a child of `p` between `ys` and `zs`.
pub record Reaped (k : Kevents) (w : Tasks) (c kids : ℕ → List ℕ) (reap_event t p : ℕ)
    (xs ys zs : List ℕ) (b : Buddy) (r : Outcome (Kevents × Tasks)) : Type 0 where
  pub result : Tasks
  pub runs : r ≡ ok (taken_off k reap_event, result)
  pub queues : Queues.AreQueues result.sched.rr result.sched.queues (update c reap_queue xs)
  pub family : AreChildren result.siblings result.first_child (update kids p (ys ++ zs))
  pub states : (a : ℕ) → result.sched.state a ≡ slain w.sched.state (kids t) a
  pub buddy : result.buddy ≡ b

-- A round of the reaper while its event is pending, with a task to reap that is a child of another
-- one, fuel for the task's children, and an allocator that takes the stacks back: the reaper does not
-- sleep, one launch is taken off the event, the first task leaves the reap queue and its siblings, its
-- children are killed, its stacks are free, and nothing else changes in queues, families and states.
pub reap_round-Reaped :
    (away : Tasks × Kevents × Sched → Outcome (Tasks × Kevents × Sched)) (fuel reap_event : ℕ)
    (k : Kevents) {w : Tasks} {c kids : ℕ → List ℕ} (t p : ℕ) (xs ys zs : List ℕ) (b : Buddy)
    → IsValid w c kids
    → k.unprocessed reap_event ≢ 0
    → c reap_queue ≡ t ∷ xs
    → w.parent t ≡ node p
    → kids p ≡ ys ++ t ∷ zs
    → length (kids t) ≤ fuel
    → free_stacks (w.stacks t) (w.stack_size t) w.buddy ≡ ok b
    → Reaped k w c kids reap_event t p xs ys zs b (reap_round away fuel reap_event (k, w))
unfolding without
reap_round-Reaped away fuel reap_event k {w} {c} {kids} t p xs ys zs b v pending here child place f
      freed =
    let q = popped v.sched t xs here in
    let w1 = record w { sched = without v.sched t xs here } in
    let valid : IsValid w1 (update c reap_queue xs) kids = record {
      sched = without-IsValid v.sched t xs here;
      family = v.family;
      unqueued =
          λ a le i. ground (arith, v.unqueued a le i, v.unqueued a le reap_queue, ap (mem a) here);
      no_child = v.no_child;
      childless = v.childless;
    } in
    let d : IsDead w1 (update c reap_queue xs) kids t p ys zs = record {
      state = without-killed v.sched t xs here;
      aside = without-IsAside v.sched t xs here;
      parent = child;
      place = place;
    } in
    let r = scheduler_cleanup_task-Cleared fuel t p ys zs b valid d f freed in
    record {
      result = r.result;
      runs =
          round_runs away fuel reap_event k (taken_off k reap_event) w r.result
            (kevents_poll-first away w fuel k w.sched [] reap_event [] refl pending)
            (reap_runs fuel w t q.links q.rq _ q.runs r.runs);
      queues =
          subst (λ qs. Queues.AreQueues r.result.sched.rr qs (update c reap_queue xs))
            (sym r.queues_same)
            (subst
              (λ l. Queues.AreQueues l (without v.sched t xs here).queues (update c reap_queue xs))
              (sym r.links_same) q.valid);
      family = r.family;
      states = r.states;
      buddy = r.buddy;
    }
