-- ===== src/Scheduler/Waking.antt =====
-- `scheduler_attempt_wake` and `scheduler_put_task2sleep`.
use munk_os.Prelude.{
  mem_split, ℕ, ◌≡◌, ◌==◌, ◌∙◌, refl, ap, sym, false, inl, inr, Bool-cases, if◌then◌else◌, some,
  List, [], ◌∷◌, ◌++◌, mem, mem-append, arith, update, ok,
}
use munk_os.Links.Edits
use munk_os.Scheduler.{
  Sched, TaskState, ready, sleeping, sleep_queue, reap_queue, with_queue, with_state, remove_from,
  insert_front, insert_back, is_sleeping, scheduler_attempt_wake, scheduler_put_task2sleep,
}
use munk_os.Scheduler.Runqueue.{runqueue_remove, runqueue_insert_front}
use munk_os.Scheduler.Queues
use munk_os.Scheduler.Queues.{AreQueues, Nowhere}
use munk_os.Scheduler.Invariant.{IsValid, IsCurrent, IsAside}

-- What the queues hold after `t` has gone from between `ys` and `zs` in queue `i` to the front of
-- queue `j`.
abbrev pub moved_front : (ℕ → List ℕ) → ℕ → List ℕ → ℕ → ℕ → List ℕ → ℕ → List ℕ
moved_front c i ys j t zs = update (update c i (ys ++ zs)) j (t ∷ update c i (ys ++ zs) j)

abbrev pub without : ℕ → List ℕ → List ℕ
without t [] = []
without t (x ∷ xs) = if x == t then without t xs else x ∷ without t xs

without-same : (t : ℕ) (xs : List ℕ) → mem t xs ≡ false → without t xs ≡ xs
without-same t [] e = refl
without-same t (x ∷ xs) e = ground (arith, without-same t xs, e)

without-append : (t : ℕ) (xs ys : List ℕ) → without t (xs ++ ys) ≡ without t xs ++ without t ys
without-append t [] ys = refl
without-append t (x ∷ xs) ys = elim (Bool-cases (x == t)) [
  | inl e ↦ rw e (without-append t xs ys)
  | inr e ↦ rw e (ap (λ l. x ∷ l) (without-append t xs ys))
]

-- A task that stands in a list once.
without-split :
    (t : ℕ) (ys zs : List ℕ) → mem t (ys ++ zs) ≡ false → without t (ys ++ t ∷ zs) ≡ ys ++ zs
without-split t ys zs e =
    without-append t ys (t ∷ zs)
    ∙ rw Edits.==_refl (sym (without-append t ys zs) ∙ without-same t (ys ++ zs) e)

-- What the queues hold once `t` has gone from the sleep queue to the front of queue `j`.
abbrev pub woken_queue : (ℕ → List ℕ) → ℕ → ℕ → ℕ → List ℕ
woken_queue c t j =
    let out = update c sleep_queue (without t (c sleep_queue)) in update out j (t ∷ out j)

module _ {s : Sched} {c : ℕ → List ℕ} (v : IsValid s c) (t : ℕ) (ys zs : List ℕ)
    (here : c sleep_queue ≡ ys ++ t ∷ zs) where
  removed :
      Queues.Freed s.rr s.queues sleep_queue t
        (update c sleep_queue (ys ++ zs))
        (runqueue_remove s.rr (s.queues sleep_queue) t)
  removed = Queues.remove-Freed v.queues sleep_queue ys t zs here

  inserted :
      Queues.Moved removed.links
        (update s.queues sleep_queue removed.rq)
        (s.prio t)
        (moved_front c sleep_queue ys (s.prio t) t zs)
        (runqueue_insert_front removed.links (update s.queues sleep_queue removed.rq (s.prio t)) t)
  inserted = Queues.insert_front-Moved removed.valid t removed.nowhere (s.prio t)

  woken : Sched
  woken = record s {
    rr = inserted.links;
    queues = update (update s.queues sleep_queue removed.rq) (s.prio t) inserted.rq;
    state = update s.state t ready;
  }

  woken-runs : s.state t ≡ sleeping → scheduler_attempt_wake s t ≡ ok woken
  unfolding scheduler_attempt_wake remove_from insert_front woken
  woken-runs e = rw (e, removed.runs, inserted.runs)

  woken-IsValid :
      s.state t ≡ sleeping → IsValid woken (moved_front c sleep_queue ys (s.prio t) t zs)
  unfolding woken
  woken-IsValid e = record {
    queues = inserted.valid;
    runnable = λ p a low i.
        ground
          (arith, v.runnable p a low, v.prio_in t, removed.nowhere p, Edits.not_same a t (c p));
    asleep = λ a i. ground (
      arith,
      v.asleep a,
      v.prio_in t,
      removed.nowhere sleep_queue,
      ap (mem a) here,
      mem-append a ys zs,
      mem-append a ys (t ∷ zs),
      Edits.not_same a t (ys ++ zs),
    );
    sleepers = λ a h. ground (
      arith,
      v.sleepers a,
      v.prio_in t,
      ap (mem a) here,
      mem-append a ys zs,
      mem-append a ys (t ∷ zs),
    );
    dead = λ a i. ground (
      arith,
      v.dead a,
      v.prio_in t,
      removed.nowhere reap_queue,
      Edits.not_same a t (c reap_queue),
    );
    prio_in = v.prio_in;
  }

  -- The woken task is in the sleep queue, so a task that is in no queue is another one.
  not_woken : (a : ℕ) → Nowhere a c → (a == t) ≡ false
  not_woken a off = ground (arith, off sleep_queue, ap (mem a) here, mem-append a ys (t ∷ zs))

  after_removal : (a : ℕ) → Nowhere a c → Nowhere a (update c sleep_queue (ys ++ zs))
  after_removal a off i =
      ground (
        arith,
        off i,
        off sleep_queue,
        ap (mem a) here,
        mem-append a ys zs,
        mem-append a ys (t ∷ zs),
      )

  after_insertion : (a : ℕ) → Nowhere a c → Nowhere a (moved_front c sleep_queue ys (s.prio t) t zs)
  after_insertion a off i =
      ground (arith, not_woken a off, after_removal a off i, after_removal a off (s.prio t))

  woken-spares :
      (a : ℕ) → IsAside s.rr c a → IsAside woken.rr (moved_front c sleep_queue ys (s.prio t) t zs) a
  unfolding woken
  woken-spares a h =
      let off = after_removal a h.nowhere in
      let on = after_insertion a h.nowhere in
      let p = removed.same a (not_woken a h.nowhere) off in
      let q = inserted.same a on in
      record { nowhere = on; unlinked = (q.0 ∙ p.0 ∙ h.unlinked.0, q.1 ∙ p.1 ∙ h.unlinked.1) }

  woken-held : moved_front c sleep_queue ys (s.prio t) t zs ≡ woken_queue c t (s.prio t)
  woken-held =
      let out : mem t (ys ++ zs) ≡ false = removed.nowhere sleep_queue in
      ap (λ l. update (update c sleep_queue l) (s.prio t) (t ∷ update c sleep_queue l (s.prio t)))
        (sym (ap (without t) here ∙ without-split t ys zs out))

  woken-reap_same : moved_front c sleep_queue ys (s.prio t) t zs reap_queue ≡ c reap_queue
  woken-reap_same = ground (arith, v.prio_in t)

-- Waking a sleeping task takes it out of the sleep queue and puts it, ready, in front of the queue
-- of its priority; nothing faults, and the queues stay in agreement with the states.
pub scheduler_attempt_wake-IsValid :
    {s : Sched} {c : ℕ → List ℕ}
    → IsValid s c
    → (t : ℕ) → s.state t ≡ sleeping
    → (s' : Sched) × (ys zs : List ℕ) × (scheduler_attempt_wake s t ≡ ok s')
      × (c sleep_queue ≡ ys ++ t ∷ zs)
      × IsValid s' (moved_front c sleep_queue ys (s.prio t) t zs)
      × (s'.state t ≡ ready)
      × (s'.curr_thread ≡ s.curr_thread)
unfolding woken
scheduler_attempt_wake-IsValid {c} v t e =
    let r = mem_split t (c sleep_queue) (v.sleepers t e) in
    (
      woken v t r.0 r.1 r.2,
      r.0,
      r.1,
      woken-runs v t r.0 r.1 r.2 e,
      r.2,
      woken-IsValid v t r.0 r.1 r.2 e,
      ground arith,
      refl,
    )

-- The outcome when the running task `t` puts itself to sleep: it is last in the sleep queue.
pub record Dozed (s : Sched) (c : ℕ → List ℕ) (t : ℕ) : Type 0 where
  pub result : Sched
  pub runs : scheduler_put_task2sleep s t ≡ ok result
  pub valid : IsValid result (update c sleep_queue (c sleep_queue ++ t ∷ []))
  pub states : result.state ≡ update s.state t sleeping
  pub curr_same : result.curr_thread ≡ s.curr_thread
  pub idle_same : result.idle_thread ≡ s.idle_thread
  pub off : result.preempt ≡ false
  pub spares :
      (a : ℕ)
      → (a == t) ≡ false
      → IsAside s.rr c a
      → IsAside result.rr (update c sleep_queue (c sleep_queue ++ t ∷ [])) a

pub scheduler_put_task2sleep-Dozed :
    {s : Sched} {c : ℕ → List ℕ} {t : ℕ}
    → IsValid s c
    → IsCurrent s c t
    → s.preempt ≡ false
    → Dozed s c t
unfolding scheduler_put_task2sleep insert_back
scheduler_put_task2sleep-Dozed {s} {c} {t} v h off =
    let m = Queues.insert_back-Moved v.queues t h.nowhere sleep_queue in
    record {
      result = with_queue (with_state s t sleeping) sleep_queue (m.links, m.rq);
      runs = rw (off, h.state, h.loaded, Edits.==_refl, m.runs);
      valid = record {
        queues = m.valid;
        runnable =
            λ p a low i. ground (arith, v.runnable p a low, Edits.not_same a t (c p), h.nowhere p);
        asleep = λ a i. ground (arith, v.asleep a, mem-append a (c sleep_queue) (t ∷ []));
        sleepers = λ a e. ground (arith, v.sleepers a, mem-append a (c sleep_queue) (t ∷ []));
        dead = λ a i.
            ground (arith, v.dead a, Edits.not_same a t (c reap_queue), h.nowhere reap_queue);
        prio_in = v.prio_in;
      };
      states = refl;
      curr_same = refl;
      idle_same = refl;
      off = off;
      spares = λ a ne aside.
          let on : Nowhere a (update c sleep_queue (c sleep_queue ++ t ∷ [])) = λ j. ground (
            arith,
            aside.nowhere j,
            aside.nowhere sleep_queue,
            mem-append a (c sleep_queue) (t ∷ []),
          ) in
          let p = m.same a on in
          record { nowhere = on; unlinked = (p.0 ∙ aside.unlinked.0, p.1 ∙ aside.unlinked.1) };
    }

-- The running task can be put to sleep: it goes to the back of the sleep queue.
pub scheduler_put_task2sleep-IsValid :
    {s : Sched} {c : ℕ → List ℕ} {t : ℕ}
    → IsValid s c
    → IsCurrent s c t
    → s.preempt ≡ false
    → (s' : Sched) × (scheduler_put_task2sleep s t ≡ ok s')
      × IsValid s' (update c sleep_queue (c sleep_queue ++ t ∷ []))
      × (s'.state t ≡ sleeping)
      × (s'.curr_thread ≡ some t)
scheduler_put_task2sleep-IsValid {s} {c} {t} v h off =
    let d = scheduler_put_task2sleep-Dozed v h off in
    (
      d.result,
      d.runs,
      d.valid,
      ap (λ (f : ℕ → TaskState). f t) d.states ∙ ground arith,
      d.curr_same ∙ h.loaded,
    )

-- The outcome of waking a sleeping task: its state, and nothing else outside the queues, changes.
pub record Woken (s : Sched) (c : ℕ → List ℕ) (t : ℕ) : Type 0 where
  pub result : Sched
  pub held : ℕ → List ℕ
  pub runs : scheduler_attempt_wake s t ≡ ok result
  pub valid : IsValid result held
  pub states : result.state ≡ update s.state t ready
  pub curr_same : result.curr_thread ≡ s.curr_thread
  pub preempt_same : result.preempt ≡ s.preempt
  pub idle_same : result.idle_thread ≡ s.idle_thread
  pub spares : (a : ℕ) → IsAside s.rr c a → IsAside result.rr held a
  pub reap_same : held reap_queue ≡ c reap_queue
  pub held_is : held ≡ woken_queue c t (s.prio t)
  pub prio_same : result.prio ≡ s.prio

pub scheduler_attempt_wake-Woken :
    (s : Sched) (c : ℕ → List ℕ) (t : ℕ) → IsValid s c → s.state t ≡ sleeping → Woken s c t
unfolding woken
scheduler_attempt_wake-Woken s c t v e =
    let r = mem_split t (c sleep_queue) (v.sleepers t e) in
    record {
      result = woken v t r.0 r.1 r.2;
      held = moved_front c sleep_queue r.0 (s.prio t) t r.1;
      runs = woken-runs v t r.0 r.1 r.2 e;
      valid = woken-IsValid v t r.0 r.1 r.2 e;
      states = refl;
      curr_same = refl;
      preempt_same = refl;
      idle_same = refl;
      spares = woken-spares v t r.0 r.1 r.2;
      reap_same = woken-reap_same v t r.0 r.1 r.2;
      held_is = woken-held v t r.0 r.1 r.2;
      prio_same = refl;
    }

-- Waking a task that does not sleep does nothing.
pub scheduler_attempt_wake-same :
    (s : Sched) (t : ℕ) → is_sleeping (s.state t) ≡ false → scheduler_attempt_wake s t ≡ ok s
unfolding scheduler_attempt_wake
scheduler_attempt_wake-same s t e = rw e

-- A sleeping task at the front of the sleep queue is woken.
pub wake-front :
    {s : Sched} {c : ℕ → List ℕ} (t : ℕ) (zs : List ℕ)
    → IsValid s c
    → c sleep_queue ≡ t ∷ zs
    → s.state t ≡ sleeping
    → (s' : Sched) × (scheduler_attempt_wake s t ≡ ok s')
      × IsValid s' (moved_front c sleep_queue [] (s.prio t) t zs)
      × (s'.state ≡ update s.state t ready)
      × (s'.prio ≡ s.prio)
      × (s'.curr_thread ≡ s.curr_thread)
      × (s'.idle_thread ≡ s.idle_thread)
      × ((a : ℕ)
          → IsAside s.rr c a
          → IsAside s'.rr (moved_front c sleep_queue [] (s.prio t) t zs) a)
unfolding woken
wake-front t zs v here e = (
  woken v t [] zs here,
  woken-runs v t [] zs here e,
  woken-IsValid v t [] zs here e,
  refl,
  refl,
  refl,
  refl,
  woken-spares v t [] zs here,
)
