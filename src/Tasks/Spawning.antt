-- ===== src/Tasks/Spawning.antt =====
-- `scheduler_spawn_task` of kernel/src/proc/scheduler.c for a thread of a thread group: the sleep
-- queue, the family, and the stacks.
use munk_os.Prelude.{
  ℕ, ◌+◌, ◌*◌, ◌%◌, ◌^◌, ◌-◌, ◌≡◌, ◌<◌, ◌≤◌, refl, ◌∙◌, arith, false, List, [], ◌∷◌, ◌++◌, update,
  ok, some, ◌==◌, ==_iff,
}
use munk_os.Links.{null, node, Links}
use munk_os.Links.Edits
use munk_os.FrameAlloc.{Buddy, buddy_alloc, page2idx}
use munk_os.FrameAlloc.Orders.{psize2order}
use munk_os.FrameAlloc.Startup.{page_size}
use munk_os.Scheduler.{Sched, unitialized, sleep_queue, reap_queue, with_queue, insert_front}
use munk_os.Scheduler.Runqueue.{runqueue_insert_front}
use munk_os.Scheduler.Queues
use munk_os.Scheduler.Queues.{Nowhere}
use munk_os.Scheduler.Invariant
use munk_os.Tasks.{
  Tasks, identify, join_group, push_stack, park, cleared, kernel_stack_size, scheduler_spawn_task,
}
use munk_os.Tasks.Family.{AreChildren, NoChild, attach-AreChildren, no-AreChildren}

-- The queues hold `c` and the families `kids`; a task that `kcalloc` has not yet made is nowhere.
pub record IsValid (w : Tasks) (c kids : ℕ → List ℕ) : Type 0 where
  pub sched : Invariant.IsValid w.sched c
  pub family : AreChildren w.siblings w.first_child kids
  pub unqueued : (t : ℕ) → w.allocated ≤ t → Nowhere t c
  pub no_child : (t : ℕ) → w.allocated ≤ t → NoChild t kids
  pub childless : (t : ℕ) → w.allocated ≤ t → kids t ≡ []

-- `page_alloc` finds a block of the order, from page `i` on.
abbrev pub Gives : Buddy → ℕ → ℕ → Buddy → Type 0
Gives b order i b' = (buddy_alloc b order ≡ ok (some i, b')) × (page2idx b' i ≡ ok i)

-- `c` with `t` in front of queue `i`.
abbrev pub ahead : (ℕ → List ℕ) → ℕ → ℕ → ℕ → List ℕ
ahead c i t = update c i (t ∷ c i)

module _ {s : Sched} {c : ℕ → List ℕ} (v : Invariant.IsValid s c) (t : ℕ) (out : Nowhere t c) where
  park-IsValid : Invariant.IsValid (park s t) c
  park-IsValid = record {
    queues =
        Queues.AreQueues-frame s.rr (park s t).rr s.queues c (t ∷ [])
          (λ i a at_i. rw (Edits.not_same a t (c i) at_i (out i))) (λ a h. ground arith) v.queues;
    runnable =
        λ p a low i. ground (arith, v.runnable p a low i, Edits.not_same a t (c p) i (out p));
    asleep =
        λ a i. ground (arith, v.asleep a i, Edits.not_same a t (c sleep_queue) i (out sleep_queue));
    sleepers = λ a e. ground (arith, v.sleepers a);
    dead = λ a i. ground (arith, v.dead a i, Edits.not_same a t (c reap_queue) i (out reap_queue));
    prio_in = λ a. ground (arith, v.prio_in a);
  }

  parking :
      Queues.Moved
        (park s t).rr
        s.queues
        sleep_queue
        (ahead c sleep_queue t)
        (runqueue_insert_front (park s t).rr (s.queues sleep_queue) t)
  parking = Queues.insert_front-Moved park-IsValid.queues t out sleep_queue

  parked : Sched
  parked = with_queue (park s t) sleep_queue (parking.links, parking.rq)

  parked-runs : insert_front (park s t) sleep_queue t ≡ ok parked
  unfolding insert_front parked
  parked-runs = rw parking.runs

  -- A new task stands in front of the sleep queue, not set up.
  parked-IsValid : Invariant.IsValid parked (ahead c sleep_queue t)
  unfolding parked
  parked-IsValid = record {
    queues = parking.valid;
    runnable = λ p a low i. ground (arith, park-IsValid.runnable p a low);
    asleep = λ a i. ground (arith, park-IsValid.asleep a, ==_iff a t);
    sleepers = λ a e. ground (arith, park-IsValid.sleepers a e);
    dead = λ a i. ground (arith, park-IsValid.dead a);
    prio_in = park-IsValid.prio_in;
  }

  parked-IsAside :
      (a : ℕ)
      → (a == t) ≡ false
      → Invariant.IsAside s.rr c a
      → Invariant.IsAside parked.rr (ahead c sleep_queue t) a
  unfolding parked
  parked-IsAside a ne h =
      let off : Nowhere a (ahead c sleep_queue t) =
        λ i. ground (arith, h.nowhere i, h.nowhere sleep_queue) in
      let p = parking.same a off in
      let q : ((park s t).rr.next a ≡ s.rr.next a) × ((park s t).rr.prev a ≡ s.rr.prev a) =
        rw ne (refl, refl) in
      record { nowhere = off; unlinked = (p.0 ∙ q.0 ∙ h.unlinked.0, p.1 ∙ q.1 ∙ h.unlinked.1) }

  -- The outcome of putting a new task in the sleep queue.
  pub record Parked : Type 0 where
    pub result : Sched
    pub runs : insert_front (park s t) sleep_queue t ≡ ok result
    pub valid : Invariant.IsValid result (ahead c sleep_queue t)
    pub states : result.state ≡ update s.state t unitialized
    pub prios : result.prio ≡ update s.prio t 4
    pub curr_same : result.curr_thread ≡ s.curr_thread
    pub idle_same : result.idle_thread ≡ s.idle_thread
    pub preempt_same : result.preempt ≡ s.preempt
    pub spares :
        (a : ℕ)
        → (a == t) ≡ false
        → Invariant.IsAside s.rr c a
        → Invariant.IsAside result.rr (ahead c sleep_queue t) a

  pub park-Parked : Parked
  unfolding parked
  park-Parked = record {
    result = parked;
    runs = parked-runs;
    valid = parked-IsValid;
    states = refl;
    prios = refl;
    curr_same = refl;
    idle_same = refl;
    preempt_same = refl;
    spares = parked-IsAside;
  }

-- `w` with `t` among the children of `p`.
abbrev pub joined : Tasks → ℕ → ℕ → Links → Tasks
joined w t p l = record w {
  gid = update w.gid t (w.gid p);
  tg_leader = update w.tg_leader t (node p);
  siblings = l;
  first_child = update w.first_child p (node t);
}

-- The stack from page `i` on is the task's.
abbrev pub pushed : Tasks → ℕ → ℕ → Buddy → Tasks
pushed w t i b = record w {
  buddy = b;
  stacks = update w.stacks t (w.stacks t ++ (i * page_size) ∷ []);
}

pub push_stack-runs :
    (w : Tasks) (t size order i : ℕ) (b : Buddy)
    → psize2order size ≡ ok order
    → Gives w.buddy order i b
    → push_stack w t size ≡ ok (i * page_size, pushed w t i b)
unfolding push_stack
push_stack-runs w t size order i b e (f, g) = rw (e, f, g)

abbrev pub sized : Tasks → ℕ → ℕ → Tasks
sized w t size = record w { stacks = update w.stacks t []; stack_size = update w.stack_size t size }

abbrev pub stack_at : Tasks → ℕ → ℕ → Tasks
stack_at w t a = record w { stack = update w.stack t a }

abbrev pub born : Tasks → ℕ → ℕ → Sched → Tasks
born w t pmc s = record w {
  context = update w.context t cleared;
  flags = update w.flags t 0;
  sched = s;
  pmc = update w.pmc t pmc;
}

pub spawn_with_kernel_stack :
    (w w1 w3 w5 : Tasks) (p pmc size a k : ℕ) (s : Sched)
    → join_group (identify w w.allocated (node p)) w.allocated (node p) ≡ ok w1
    → push_stack (sized w1 w.allocated size) w.allocated size ≡ ok (a, w3)
    → push_stack
        (stack_at w3 w.allocated ((a + size + 2 ^ 64 - 1) % 2 ^ 64))
        w.allocated
        kernel_stack_size
      ≡ ok (k, w5)
    → insert_front (park w5.sched w.allocated) sleep_queue w.allocated ≡ ok s
    → scheduler_spawn_task w (node p) pmc 1 size
      ≡ ok (
        w.allocated,
        born (stack_at w5 w.allocated ((k + kernel_stack_size) % 2 ^ 64)) w.allocated pmc s,
      )
unfolding scheduler_spawn_task
spawn_with_kernel_stack w w1 w3 w5 p pmc size a k s e f g h = rw (e, f, g, h)

pub spawn_without_kernel_stack :
    (w w1 w3 : Tasks) (p pmc size a : ℕ) (s : Sched)
    → join_group (identify w w.allocated (node p)) w.allocated (node p) ≡ ok w1
    → push_stack (sized w1 w.allocated size) w.allocated size ≡ ok (a, w3)
    → insert_front (park w3.sched w.allocated) sleep_queue w.allocated ≡ ok s
    → scheduler_spawn_task w (node p) pmc 3 size
      ≡ ok (
        w.allocated,
        born
            (record (stack_at w3 w.allocated ((a + size + 2 ^ 64 - 1) % 2 ^ 64)) {
              kernel_stack = update w3.kernel_stack w.allocated 0;
            })
            w.allocated
            pmc
            s,
      )
unfolding scheduler_spawn_task
spawn_without_kernel_stack w w1 w3 p pmc size a s e f h = rw (e, f, h)

-- The family of a valid state with one more child of `p`.
pub join-AreChildren :
    {w : Tasks} {c kids : ℕ → List ℕ} (p : ℕ)
    → IsValid w c kids
    → p < w.allocated
    → (l : Links) × (join_group (identify w w.allocated (node p)) w.allocated (node p)
        ≡ ok (joined (identify w w.allocated (node p)) w.allocated p l))
      × AreChildren l
          (update (update w.first_child w.allocated null) p (node w.allocated))
          (ahead kids p w.allocated)
unfolding join_group
join-AreChildren {w} {kids} p v low =
    let t = w.allocated in
    let ne : (p == t) ≡ false = ground arith in
    let fresh = no-AreChildren t (v.childless t (omega arith)) v.family in
    let (l, runs, g) = attach-AreChildren p t fresh (v.no_child t (omega arith)) in (l, rw runs, g)
