-- ===== src/Preemption/Unawaited.antt =====
-- A thread that exits while the reaper of kernel/src/proc/scheduler.c is at work, between two calls of
-- `kevents_poll`.
use munk_os.Prelude.{
  ℕ, ◌≡◌, ◌≢◌, ◌≤◌, refl, ◌∙◌, arith, Bool, false, some, List, [], ◌∷◌, ◌==◌, ==_iff, update, ok,
  panic, length, Bool-cases, inl, inr,
}
use munk_os.Links.{Ptr, null}
use munk_os.Links.Edits
use munk_os.Links.Segments.{Seg}
use munk_os.Scheduler.{Sched, reap_queue, insert_back}
use munk_os.Scheduler.Invariant
use munk_os.Events.{
  Kevents, kevent_launch, kevent_unsubscribe, find_unprocessed_from, finish_poll, preempt_restore,
}
use munk_os.Events.Lists.{threads}
use munk_os.Events.Subscribers.{IsValid}
use munk_os.Events.Unsubscribing.{kevent_unsubscribe-Returned}
use munk_os.Events.Polling.{taken_off}
use munk_os.Preemption.{leave, scheduler_kernel_thread_exit}
use munk_os.Preemption.Leaving.{exiting, exiting-IsValid, exit_runs, to_reap-runs}

-- An event that no thread waits for has no subscriber.
no_subscriber :
    (k : Kevents) (xs : List ℕ) (p tail : Ptr)
    → Seg k.links null p xs tail null
    → threads k.subscribed_thread xs ≡ []
    → p ≡ null
no_subscriber k [] p tail g e = g.0
no_subscriber k (x ∷ xs) p tail g e = cc

taken_off-IsValid :
    (k : Kevents) (w : ℕ → List ℕ) (ev : ℕ) → IsValid k w → IsValid (taken_off k ev) w
taken_off-IsValid k w ev v = record {
  lists = v.lists;
  pool = v.pool;
  linked = record {
    each = v.linked.each;
    apart = v.linked.apart;
    stack = v.linked.stack;
    idle = v.linked.idle;
    made_pool = v.linked.made_pool;
    made = v.linked.made;
  };
  waiting = v.waiting;
}

leave_panics :
    (fuel reap_event t : ℕ) (k : Kevents) (s s1 : Sched)
    → insert_back s reap_queue t ≡ ok s1
    → k.subscribers reap_event ≡ null
    → leave fuel reap_event t (k, s) ≡ panic
unfolding leave kevent_launch
leave_panics fuel reap_event t k s s1 e f = rw (e, f)

module _ {E : Type 0} (x : E) where
  finish_runs :
      (fuel ev t : ℕ) (b : Bool) (k k' : Kevents) (s : Sched)
      → (k.unprocessed ev == 0) ≡ false
      → kevent_unsubscribe fuel (ev ∷ []) t (taken_off k ev) ≡ ok k'
      → finish_poll fuel (ev ∷ []) t b (x, k, s) ≡ ok (some 0, x, k', preempt_restore b s)
  unfolding find_unprocessed_from
  finish_runs fuel ev t b k k' s h e = rw (h, e)

  -- While only the reaper waits for its event, which is pending, with as much fuel as threads wait
  -- for any event: the rest of its `kevents_poll` returns and it waits no longer, and a running
  -- thread that exits then, with the run queues in order, before the reaper polls again, panics, whatever the reaper still has to do.
  pub finish_poll-exit-panic :
      (fuel reap_event reaper : ℕ) (b : Bool) (k : Kevents) (w : ℕ → List ℕ) (asleep : Sched)
      {s : Sched} {c : ℕ → List ℕ} {t : ℕ}
      → IsValid k w
      → w reap_event ≡ reaper ∷ []
      → ((j : ℕ) → length (w j) ≤ fuel)
      → k.unprocessed reap_event ≢ 0
      → Invariant.IsValid s c
      → Invariant.IsCurrent s c t
      → (k' : Kevents) × (finish_poll fuel (reap_event ∷ []) reaper b (x, k, asleep)
          ≡ ok (some 0, x, k', preempt_restore b asleep))
        × (scheduler_kernel_thread_exit fuel reap_event (k', s) ≡ panic)
  finish_poll-exit-panic fuel reap_event reaper b k w asleep {s} {c} {t} v alone f pending u h =
      let r =
        kevent_unsubscribe-Returned fuel (reap_event ∷ []) reaper (taken_off k reap_event) w
          (update w reap_event []) (taken_off-IsValid k w reap_event v)
          (λ j. elim (Bool-cases (j == reap_event)) [
            | inl e ↦ rw (e, (==_iff j reap_event).0 e) alone
            | inr e ↦ rw e refl
          ])
          f in
      let (tail, g) = r.valid.linked.each reap_event in
      let none_waits =
        no_subscriber r.result (r.valid.lists reap_event) (r.result.subscribers reap_event) tail g
          (r.valid.waiting reap_event ∙ rw Edits.==_refl refl) in
      (
        r.result,
        finish_runs fuel reap_event reaper b k r.result asleep (ground (arith, pending)) r.runs,
        exit_runs fuel reap_event t r.result s panic h.loaded (
            leave_panics fuel reap_event t r.result (exiting s t) _
              (to_reap-runs (exiting-IsValid u h) (ground arith) h.nowhere) none_waits),
      )
