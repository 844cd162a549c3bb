-- ===== src/Events/Launching.antt =====
-- `kevent_launch` of kernel/src/misc/kevent.c: whom it wakes.
use munk_os.Prelude.{
  ℕ, zero, suc, ◌+◌, ◌%◌, ◌^◌, ◌≡◌, ◌≤◌, refl, ap, ◌∙◌, arith, Bool, true, false, ◌&&◌, List, [],
  ◌∷◌, mem, ◌==◌, update, Outcome, ok, inl, inr, Bool-cases, if◌then◌else◌, length, fun_ext, ==_iff,
}
use munk_os.Links.{Ptr, null, node}
use munk_os.Links.Segments.{Seg}
use munk_os.Scheduler.{
  Sched, TaskState, reap_queue, ready, sleeping, running, killed, unitialized, is_sleeping,
  scheduler_attempt_wake,
}
use munk_os.Scheduler.Invariant
use munk_os.Scheduler.Waking.{
  woken_queue, scheduler_attempt_wake-Woken, scheduler_attempt_wake-same,
}
use munk_os.Events.{Kevents, wake_subscribers, kevent_launch, preempt_restore}
use munk_os.Events.Lists.{threads, length-threads, AreLists}
use munk_os.Events.Subscribers.{IsValid}

-- The state of a task when those of `ts` that sleep have been woken.
abbrev pub awake : (ℕ → TaskState) → List ℕ → ℕ → TaskState
awake st ts a = if mem a ts && is_sleeping (st a) then ready else st a

-- What the queues hold when the tasks of `ts`, one after the other, have been woken if they sleep.
abbrev pub woken_queues : (ℕ → ℕ) → (ℕ → TaskState) → (ℕ → List ℕ) → List ℕ → ℕ → List ℕ
woken_queues prio st c [] = c
woken_queues prio st c (t ∷ ts) =
    woken_queues prio (awake st (t ∷ []))
      (if is_sleeping (st t) then woken_queue c t (prio t) else c) ts

-- The threads `ts` have been woken, and the queues agree with the states.
pub record AllWoken (s : Sched) (c : ℕ → List ℕ) (ts : List ℕ) (r : Outcome Sched) : Type 0 where
  pub result : Sched
  pub held : ℕ → List ℕ
  pub runs : r ≡ ok result
  pub valid : Invariant.IsValid result held
  pub states : (a : ℕ) → result.state a ≡ awake s.state ts a
  pub curr_same : result.curr_thread ≡ s.curr_thread
  pub preempt_same : result.preempt ≡ s.preempt
  pub idle_same : result.idle_thread ≡ s.idle_thread
  pub spares : (a : ℕ) → Invariant.IsAside s.rr c a → Invariant.IsAside result.rr held a
  pub reap_same : held reap_queue ≡ c reap_queue
  pub held_is : held ≡ woken_queues s.prio s.state c ts
  pub prio_same : result.prio ≡ s.prio

is_sleeping→eq : (st : TaskState) → is_sleeping st ≡ true → st ≡ sleeping
is_sleeping→eq sleeping e = refl
is_sleeping→eq unitialized e = cc
is_sleeping→eq running e = cc
is_sleeping→eq ready e = cc
is_sleeping→eq killed e = cc

-- `scheduler_attempt_wake` on one task, whatever its state.
wake_one :
    (s : Sched) (c : ℕ → List ℕ) (t : ℕ)
    → Invariant.IsValid s c
    → AllWoken s c (t ∷ []) (scheduler_attempt_wake s t)
wake_one s c t v = elim (Bool-cases (is_sleeping (s.state t))) [
  | inl e ↦
      let r = scheduler_attempt_wake-Woken s c t v (is_sleeping→eq (s.state t) e) in
      record {
        result = r.result;
        held = r.held;
        runs = r.runs;
        valid = r.valid;
        states = λ a.
            ap (λ f. f a) r.states
            ∙ elim (Bool-cases (a == t)) [ inl h ↦ rw (h, (==_iff a t).0 h, e) | inr h ↦ rw h ];
        curr_same = r.curr_same;
        preempt_same = r.preempt_same;
        idle_same = r.idle_same;
        spares = r.spares;
        reap_same = r.reap_same;
        held_is = rw e r.held_is;
        prio_same = r.prio_same;
      }
  | inr e ↦ record {
    result = s;
    held = c;
    runs = scheduler_attempt_wake-same s t e;
    valid = v;
    states = λ a. elim (Bool-cases (a == t)) [ inl h ↦ rw (h, (==_iff a t).0 h, e) | inr h ↦ rw h ];
    curr_same = refl;
    preempt_same = refl;
    idle_same = refl;
    spares = λ a h. h;
    reap_same = refl;
    held_is = rw e refl;
    prio_same = refl;
  }
]

wake_next :
    (fuel : ℕ) (k : Kevents) (x : ℕ) (p : Ptr) (s s' : Sched)
    → p ≡ node x
    → scheduler_attempt_wake s (k.subscribed_thread x) ≡ ok s'
    → wake_subscribers (suc fuel) k p s ≡ wake_subscribers fuel k (k.links.next x) s'
unfolding wake_subscribers
wake_next fuel k x p s s' e h = rw (e, h)

awake-cons :
    (st : ℕ → TaskState) (t : ℕ) (ts : List ℕ) (a : ℕ)
    → awake (awake st (t ∷ [])) ts a ≡ awake st (t ∷ ts) a
awake-cons st t ts a = ground arith

wake_subscribers-AllWoken :
    (fuel : ℕ) (k : Kevents) (back p : Ptr) (xs : List ℕ) (tail : Ptr) (s : Sched) (c : ℕ → List ℕ)
    → length xs ≤ fuel
    → Seg k.links back p xs tail null
    → Invariant.IsValid s c
    → AllWoken s c (threads k.subscribed_thread xs) (wake_subscribers fuel k p s)
unfolding wake_subscribers
wake_subscribers-AllWoken fuel k back p [] tail s c f g v = record {
  result = s;
  held = c;
  runs = rw g.0;
  valid = v;
  states = λ a. refl;
  curr_same = refl;
  preempt_same = refl;
  idle_same = refl;
  spares = λ a h. h;
  reap_same = refl;
  held_is = refl;
  prio_same = refl;
}
wake_subscribers-AllWoken zero k back p (x ∷ xs) tail s c f g v = absurd (omega arith)
wake_subscribers-AllWoken (suc fuel) k back p (x ∷ xs) tail s c f g v =
    let t = k.subscribed_thread x in
    let ts = threads k.subscribed_thread xs in
    let r = wake_one s c t v in
    let q =
      wake_subscribers-AllWoken fuel k (node x) (k.links.next x) xs tail r.result r.held
        (omega arith) g.3 r.valid in
    record {
      result = q.result;
      held = q.held;
      runs = wake_next fuel k x p s r.result g.0 r.runs ∙ q.runs;
      valid = q.valid;
      states = λ a.
          q.states a
          ∙ ap (λ f. awake f (threads k.subscribed_thread xs) a) (fun_ext r.states)
          ∙ awake-cons s.state t (threads k.subscribed_thread xs) a;
      curr_same = q.curr_same ∙ r.curr_same;
      preempt_same = q.preempt_same ∙ r.preempt_same;
      idle_same = q.idle_same ∙ r.idle_same;
      spares = λ a h. q.spares a (r.spares a h);
      reap_same = q.reap_same ∙ r.reap_same;
      held_is =
          q.held_is
          ∙ ap (λ p. woken_queues p r.result.state r.held ts) r.prio_same
          ∙ ap (λ st. woken_queues s.prio st r.held ts) (fun_ext r.states)
          ∙ ap (λ q. woken_queues s.prio (awake s.state (t ∷ [])) q ts) r.held_is;
      prio_same = q.prio_same ∙ r.prio_same;
    }

-- The outcome of launching `ev` while the threads `w` wait.
pub record Launched (k : Kevents) (w : ℕ → List ℕ) (s : Sched) (c : ℕ → List ℕ) (ev : ℕ)
    (r : Outcome (Kevents × Sched)) : Type 0 where
  pub events : Kevents
  pub sched : Sched
  pub held : ℕ → List ℕ
  pub runs : r ≡ ok (events, sched)
  pub waiting : IsValid events w
  pub counts : events.unprocessed ≡ update k.unprocessed ev ((k.unprocessed ev + 1) % 2 ^ 64)
  pub valid : Invariant.IsValid sched held
  pub states : (a : ℕ) → sched.state a ≡ awake s.state (w ev) a
  pub curr_same : sched.curr_thread ≡ s.curr_thread
  pub preempt_same : sched.preempt ≡ s.preempt
  pub idle_same : sched.idle_thread ≡ s.idle_thread
  pub spares : (a : ℕ) → Invariant.IsAside s.rr c a → Invariant.IsAside sched.rr held a
  pub reap_same : held reap_queue ≡ c reap_queue
  pub held_is : held ≡ woken_queues s.prio s.state c (w ev)

pub off-IsValid :
    (s : Sched) (c : ℕ → List ℕ) (b : Bool)
    → Invariant.IsValid s c
    → Invariant.IsValid (record s { preempt = b }) c
off-IsValid s c b v = record {
  queues = v.queues;
  runnable = v.runnable;
  asleep = v.asleep;
  sleepers = v.sleepers;
  dead = v.dead;
  prio_in = v.prio_in;
}

counted : Kevents → ℕ → Kevents
counted k ev = record k { unprocessed = update k.unprocessed ev ((k.unprocessed ev + 1) % 2 ^ 64) }

launch_runs :
    (fuel : ℕ) (k : Kevents) (ev x : ℕ) (s s' : Sched)
    → k.subscribers ev ≡ node x
    → wake_subscribers fuel (counted k ev) (k.subscribers ev) (record s { preempt = false }) ≡ ok s'
    → kevent_launch fuel ev (k, s) ≡ ok (counted k ev, preempt_restore s.preempt s')
unfolding kevent_launch counted
launch_runs fuel k ev x s s' e h = cc

restored :
    (s s' : Sched) (c : ℕ → List ℕ) (b : Bool)
    → s'.preempt ≡ false
    → Invariant.IsValid s' c
    → Invariant.IsValid (preempt_restore b s') c
      × ((preempt_restore b s').preempt ≡ b)
      × ((preempt_restore b s').state ≡ s'.state)
      × ((preempt_restore b s').curr_thread ≡ s'.curr_thread)
      × ((preempt_restore b s').idle_thread ≡ s'.idle_thread)
      × ((preempt_restore b s').rr ≡ s'.rr)
restored s s' c true e v = (off-IsValid s' c true v, refl, refl, refl, refl, refl)
restored s s' c false e v = (v, e, refl, refl, refl, refl)

relinked :
    (k : Kevents) (ev : ℕ) {c : ℕ → List ℕ} {pool : List ℕ}
    → AreLists k c pool
    → AreLists (counted k ev) c pool
unfolding counted
relinked k ev v = record {
  each = v.each;
  apart = v.apart;
  stack = v.stack;
  idle = v.idle;
  made_pool = v.made_pool;
  made = v.made;
}

-- An event that threads wait for has a first subscriber.
first_node :
    (k : Kevents) (xs : List ℕ) (th : ℕ → ℕ) (p tail : Ptr) (t : ℕ) (ts : List ℕ)
    → Seg k.links null p xs tail null
    → threads th xs ≡ t ∷ ts
    → (x : ℕ) × (p ≡ node x)
first_node k [] th p tail t ts g e = cc
first_node k (x ∷ xs) th p tail t ts g e = (x, g.0)

-- Launching an event that some thread waits for, with as much fuel as threads wait, never fails.
-- It counts the event once more, modulo 2 ^ 64, and wakes every thread that waits for the event and
-- sleeps: the state of such a thread, and of no other, becomes ready. The run queues agree with the
-- states again, all threads still wait for their events, and the interrupt flag is restored.
pub kevent_launch-Launched :
    (fuel : ℕ) (k : Kevents) (w : ℕ → List ℕ) (s : Sched) (c : ℕ → List ℕ) (ev t : ℕ) (ts : List ℕ)
    → IsValid k w
    → Invariant.IsValid s c
    → w ev ≡ t ∷ ts
    → length (w ev) ≤ fuel
    → Launched k w s c ev (kevent_launch fuel ev (k, s))
unfolding counted
kevent_launch-Launched fuel k w s c ev t ts v u e f =
    let k' = counted k ev in
    let th = k.subscribed_thread in
    let (tail, g) = v.linked.each ev in
    let (x, head) =
      first_node k (v.lists ev) th (k.subscribers ev) tail t ts g (v.waiting ev ∙ e) in
    let r =
      wake_subscribers-AllWoken fuel k' null (k.subscribers ev) (v.lists ev) tail
        (record s { preempt = false }) c
        (omega (arith, f, length-threads th (v.lists ev), ap length (v.waiting ev))) g
        (off-IsValid s c false u) in
    let (ok_s, pre, st, cur, idle, rr) =
      restored s r.result r.held s.preempt r.preempt_same r.valid in
    record {
      events = k';
      sched = preempt_restore s.preempt r.result;
      held = r.held;
      runs = launch_runs fuel k ev x s r.result head r.runs;
      waiting = record {
        lists = v.lists;
        pool = v.pool;
        linked = relinked k ev v.linked;
        waiting = v.waiting;
      };
      counts = refl;
      valid = ok_s;
      states = λ a. ap (λ f. f a) st ∙ r.states a ∙ ap (λ ts. awake s.state ts a) (v.waiting ev);
      curr_same = cur ∙ r.curr_same;
      preempt_same = pre;
      idle_same = idle ∙ r.idle_same;
      spares = λ a h. rw rr (r.spares a h);
      reap_same = r.reap_same;
      held_is = r.held_is ∙ ap (woken_queues s.prio s.state c) (v.waiting ev);
    }
