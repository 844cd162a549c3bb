-- ===== src/Events.antt =====
-- kernel/src/misc/kevent.c, with the types of kernel/include/kevent.h: threads that wait for
-- events, and the wake-up of every subscriber when one is launched. An event is a number. A
-- subscriber is named by the number of the call of `kcalloc` that made it, since none is ever given
-- back to the heap. The lock of an event is taken and released inside each function and interrupts
-- are off, so it does not show in the state between two calls. A loop along a list runs on fuel.
pub mod Lists
pub mod Subscribers
pub mod Unlisting
pub mod Unsubscribing
pub mod Launching
pub mod Polling
pub mod Tests
use munk_os.Prelude.{
  ℕ, zero, suc, ◌+◌, ◌-◌, ◌%◌, ◌^◌, Bool, true, false, List, [], ◌∷◌, Option, none, some, Outcome,
  ok, panic, fault, out_of_fuel, ◌>>=◌, update, ◌==◌, if◌then◌else◌,
}
use munk_os.Links.{Ptr, null, node, poison, ptr_is, Links, set_next, attach_front, detach}
use munk_os.Scheduler.{Sched, scheduler_attempt_wake, scheduler_put_task2sleep, scheduler_yield}

pub record Kevents : Type 0 where
  pub links : Links
  -- of a subscriber
  pub event : ℕ → ℕ
  pub subscribed_thread : ℕ → ℕ
  pub subscriber_pool : Ptr
  -- the number of calls of `kcalloc` so far
  pub allocated : ℕ
  -- of an event
  pub unprocessed : ℕ → ℕ
  pub subscribers : ℕ → Ptr

-- One round of the refill: a subscriber from `kcalloc` is put on the pool.
abbrev pub refill_once : Kevents → Kevents
refill_once k = record k {
  links = set_next k.links k.allocated k.subscriber_pool;
  subscriber_pool = node k.allocated;
  allocated = k.allocated + 1;
}

unfoldable pub refill : ℕ → Kevents → Kevents
refill zero k = k
refill (suc n) k = refill n (refill_once k)

abbrev pub refill_amount : ℕ
refill_amount = 128

take_subscriber : Kevents → Ptr → Outcome (ℕ × Kevents)
take_subscriber k null = fault
take_subscriber k (node ret) = ok (ret, record k { subscriber_pool = k.links.next ret })
take_subscriber k poison = fault

pool_alloc_at : Kevents → Ptr → Outcome (ℕ × Kevents)
pool_alloc_at k null = let k' = refill refill_amount k in take_subscriber k' k'.subscriber_pool
pool_alloc_at k p = take_subscriber k p

unfoldable pub subscriber_pool_alloc : Kevents → Outcome (ℕ × Kevents)
unfolding pool_alloc_at take_subscriber
subscriber_pool_alloc k = pool_alloc_at k k.subscriber_pool

unfoldable pub subscriber_pool_free : Kevents → ℕ → Kevents
subscriber_pool_free k s = record k {
  links = set_next k.links s k.subscriber_pool;
  subscriber_pool = node s;
}

unfoldable pub subscriber_list_link : Kevents → ℕ → ℕ → Outcome Kevents
subscriber_list_link k ev t = do
  (new, k') ← subscriber_pool_alloc k
  l ← attach_front k'.links new (k'.subscribers ev)
  ok (record k' {
    links = l;
    event = update k'.event new ev;
    subscribed_thread = update k'.subscribed_thread new t;
    subscribers = update k'.subscribers ev (node new);
  })

-- The loop of `_subscriber_list_unlink`; `none` is the end of the list.
unfoldable pub find_subscriber : ℕ → Kevents → ℕ → Ptr → Outcome (Option ℕ)
find_subscriber fuel k t null = ok none
find_subscriber fuel k t poison = fault
find_subscriber zero k t (node curr) = out_of_fuel
find_subscriber (suc fuel) k t (node curr) =
    let rest = find_subscriber fuel k t (k.links.next curr) in
    if k.subscribed_thread curr == t then ok (some curr) else rest

abbrev pub unlink_found : Kevents → ℕ → Option ℕ → Outcome Kevents
unlink_found k ev none = panic
unlink_found k ev (some curr) = do
  let head = k.subscribers ev
  let head' = if ptr_is head curr then k.links.next curr else head
  l ← detach k.links curr
  ok (
      subscriber_pool_free (record k { links = l; subscribers = update k.subscribers ev head' })
        curr)

unfoldable pub subscriber_list_unlink : ℕ → Kevents → ℕ → ℕ → Outcome Kevents
subscriber_list_unlink fuel k ev t = do
  found ← find_subscriber fuel k t (k.subscribers ev)
  unlink_found k ev found

-- The rounds from `i` on of `_find_unprocessed`; `none` is `KEVENT_POLL_INVALID`.
unfoldable pub find_unprocessed_from : ℕ → List ℕ → Kevents → Option ℕ × Kevents
find_unprocessed_from i [] k = (none, k)
find_unprocessed_from i (ev ∷ events) k =
    if k.unprocessed ev == 0
    then find_unprocessed_from (i + 1) events k
    else (some i, record k { unprocessed = update k.unprocessed ev (k.unprocessed ev - 1) })

abbrev pub find_unprocessed : List ℕ → Kevents → Option ℕ × Kevents
find_unprocessed events k = find_unprocessed_from 0 events k

unfoldable pub kevent_subscribe : List ℕ → ℕ → Kevents → Outcome Kevents
kevent_subscribe [] this k = ok k
kevent_subscribe (ev ∷ events) this k = do
  k' ← subscriber_list_link k ev this
  kevent_subscribe events this k'

unfoldable pub kevent_unsubscribe : ℕ → List ℕ → ℕ → Kevents → Outcome Kevents
kevent_unsubscribe fuel [] this k = ok k
kevent_unsubscribe fuel (ev ∷ events) this k = do
  k' ← subscriber_list_unlink fuel k ev this
  kevent_unsubscribe fuel events this k'

-- `if (state) preempt_enable();`
abbrev pub preempt_restore : Bool → Sched → Sched
preempt_restore true s = record s { preempt = true }
preempt_restore false s = s

-- The loop of `kevent_launch`.
unfoldable pub wake_subscribers : ℕ → Kevents → Ptr → Sched → Outcome Sched
wake_subscribers fuel k null s = ok s
wake_subscribers fuel k poison s = fault
wake_subscribers zero k (node curr) s = out_of_fuel
wake_subscribers (suc fuel) k (node curr) s = do
  s' ← scheduler_attempt_wake s (k.subscribed_thread curr)
  wake_subscribers fuel k (k.links.next curr) s'

launch_at : ℕ → Kevents → ℕ → Sched → Ptr → Outcome (Kevents × Sched)
launch_at fuel k ev s null = panic
launch_at fuel k ev s head = do
  let k' = record k { unprocessed = update k.unprocessed ev ((k.unprocessed ev + 1) % 2 ^ 64) }
  s' ← wake_subscribers fuel k' head (record s { preempt = false })
  ok (k', preempt_restore s.preempt s')

unfoldable pub kevent_launch : ℕ → ℕ → Kevents × Sched → Outcome (Kevents × Sched)
unfolding launch_at
kevent_launch fuel ev (k, s) = launch_at fuel k ev s (k.subscribers ev)

-- The rest of the kernel's state is `E`, which polling itself leaves alone.
module _ {E : Type 0} where
  -- From the second call of `_find_unprocessed` on, when the thread has been loaded again.
  abbrev pub finish_poll :
      ℕ → List ℕ → ℕ → Bool → E × Kevents × Sched → Outcome (Option ℕ × E × Kevents × Sched)
  finish_poll fuel events this state (e, k, s) = do
    let r = find_unprocessed events k
    k' ← kevent_unsubscribe fuel events this r.1
    ok (r.0, e, k', preempt_restore state s)

  module _ (away : E × Kevents × Sched → Outcome (E × Kevents × Sched)) where
    -- Nothing is unprocessed: the thread subscribes, sleeps and yields.
    abbrev pub wait_for :
        ℕ
        → List ℕ
        → Option ℕ
        → Bool
        → E × Kevents × Sched
        → Outcome (Option ℕ × E × Kevents × Sched)
    wait_for fuel events none state (e, k, s) = fault
    wait_for fuel events (some this) state (e, k, s) = do
      k' ← kevent_subscribe events this k
      s' ← scheduler_put_task2sleep s this
      s'' ← scheduler_yield s'
      w ← away (e, k', s'')
      finish_poll fuel events this state w

    -- `away` is what the other tasks and the interrupts do from the yield until this thread is
    -- loaded again.
    unfoldable pub kevents_poll :
        ℕ → List ℕ → E × Kevents × Sched → Outcome (Option ℕ × E × Kevents × Sched)
    kevents_poll fuel events (e, k, s) =
        let s' = record s { preempt = false } in
        let (out, k') = find_unprocessed events k in
        elim out [
          | some i ↦ ok (some i, e, k', preempt_restore s.preempt s')
          | none ↦ wait_for fuel events s.curr_thread s.preempt (e, k', s')
        ]
