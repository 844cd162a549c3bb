-- ===== src/Scheduler/Invariant.antt =====
-- When the scheduler's queues and the states of the tasks agree.
use munk_os.Prelude.{ℕ, ◌≡◌, ◌<◌, true, some, List, mem, ◌⊎◌}
use munk_os.Links.{null, Links}
use munk_os.Scheduler.{
  Sched, unitialized, running, ready, sleeping, killed, sleep_queue, reap_queue, max_priorities,
}
use munk_os.Scheduler.Queues.{AreQueues, Nowhere}

-- `c i` is what queue `i` holds.
pub record IsValid (s : Sched) (c : ℕ → List ℕ) : Type 0 where
  pub queues : AreQueues s.rr s.queues c
  -- a task in a run queue is ready, and the queue is that of its priority
  pub runnable :
      (p a : ℕ) → p < max_priorities → mem a (c p) ≡ true → (s.state a ≡ ready) × (s.prio a ≡ p)
  -- the sleep queue holds the sleeping tasks, and new ones that have not been set up
  pub asleep :
      (a : ℕ) → mem a (c sleep_queue) ≡ true → (s.state a ≡ sleeping) ⊎ (s.state a ≡ unitialized)
  pub sleepers : (a : ℕ) → s.state a ≡ sleeping → mem a (c sleep_queue) ≡ true
  pub dead : (a : ℕ) → mem a (c reap_queue) ≡ true → s.state a ≡ killed
  pub prio_in : (a : ℕ) → s.prio a < max_priorities

-- Task `a` stands in no queue.
pub record IsAside (l : Links) (c : ℕ → List ℕ) (a : ℕ) : Type 0 where
  pub nowhere : Nowhere a c
  pub unlinked : (l.next a ≡ null) × (l.prev a ≡ null)

-- The task that runs, and the idle task, stand in no queue.
pub record IsCurrent (s : Sched) (c : ℕ → List ℕ) (t : ℕ) : Type 0 where
  pub loaded : s.curr_thread ≡ some t
  pub state : s.state t ≡ running
  pub nowhere : Nowhere t c
  pub unlinked : (s.rr.next t ≡ null) × (s.rr.prev t ≡ null)
