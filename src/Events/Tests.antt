-- ===== src/Events/Tests.antt =====
-- Two subscribers: the first waits for event 7 on behalf of the sleeping task 2, the other is in
-- the pool. The tasks are those of the scheduler's tests.
use munk_os.Prelude.{
  ℕ, ◌≡◌, refl, List, [], ◌∷◌, arith, ◌==◌, if◌then◌else◌, ok, Outcome, ◌>>=◌, some,
}
use munk_os.Links.{null, node}
use munk_os.Scheduler.{Sched, scheduler_yield, scheduler_attempt_wake, TaskState, ready}
use munk_os.Scheduler.Tests.{no_links, sched, held, sched-IsValid, sched-IsCurrent}
use munk_os.Events.{
  Kevents, kevent_launch, kevent_subscribe, kevent_unsubscribe, kevents_poll, finish_poll,
}
use munk_os.Events.Lists.{AreLists}
use munk_os.Events.Subscribers.{IsValid, Returned}
use munk_os.Events.Unsubscribing.{kevent_unsubscribe-subscribe}
use munk_os.Events.Launching.{Launched, kevent_launch-Launched}
use munk_os.Events.Polling.{Asleep, taken_off, kevents_poll-first, kevents_poll-Asleep}

abbrev pub events : Kevents
events = record {
  links = no_links;
  event = λ x. 7;
  subscribed_thread = λ x. 2;
  subscriber_pool = node 1;
  allocated = 2;
  unprocessed = λ ev. if ev == 8 then 1 else 0;
  subscribers = λ ev. if ev == 7 then node 0 else null;
}

abbrev pub waiting : ℕ → List ℕ
waiting ev = if ev == 7 then 2 ∷ [] else []

abbrev lists : ℕ → List ℕ
lists ev = if ev == 7 then 0 ∷ [] else []

lists-AreLists : AreLists events lists (1 ∷ [])
lists-AreLists = record {
  each = λ ev. (if ev == 7 then node 0 else null, ground arith);
  apart = λ i j e a h. ground arith;
  stack = (refl, refl, refl);
  idle = λ ev a i. ground arith;
  made_pool = λ a i. ground arith;
  made = λ ev a i. ground arith;
}

pub events-IsValid : IsValid events waiting
events-IsValid = record {
  lists = lists;
  pool = 1 ∷ [];
  linked = lists-AreLists;
  waiting = λ ev. ground arith;
}

abbrev state_after : ℕ → Outcome (Kevents × Sched) → Outcome TaskState
state_after t r = r >>= λ (k, s). ok (s.state t)

launch_wakes : state_after 2 (kevent_launch 2 7 (events, sched)) ≡ ok ready
unfolding kevent_launch scheduler_attempt_wake munk_os.Events.wake_subscribers
    munk_os.Scheduler.remove_from munk_os.Scheduler.Runqueue.runqueue_remove
    munk_os.Scheduler.insert_front munk_os.Scheduler.Runqueue.runqueue_insert_front
launch_wakes = refl

kevent_launch-Launched_example :
    Launched events waiting sched held 7 (kevent_launch 2 7 (events, sched))
kevent_launch-Launched_example =
    kevent_launch-Launched 2 events waiting sched held 7 2 [] events-IsValid sched-IsValid refl
      (omega arith)

kevent_unsubscribe-subscribe_example :
    Returned events waiting
      (kevent_subscribe (7 ∷ 9 ∷ 7 ∷ []) 1 events >>= kevent_unsubscribe 4 (7 ∷ 9 ∷ 7 ∷ []) 1)
kevent_unsubscribe-subscribe_example =
    kevent_unsubscribe-subscribe 4 (7 ∷ 9 ∷ 7 ∷ []) 1 events waiting events-IsValid
      (λ j. ground arith)

abbrev stay : ℕ × Kevents × Sched → Outcome (ℕ × Kevents × Sched)
stay w = ok w

kevents_poll-first_example :
    kevents_poll stay 4 (7 ∷ 8 ∷ 7 ∷ []) (0, events, sched)
    ≡ ok (some 1, 0, taken_off events 8, sched)
kevents_poll-first_example =
    kevents_poll-first stay 0 4 events sched (7 ∷ []) 8 (7 ∷ []) refl (ground arith)

kevents_poll-Asleep_example :
    (k' : Kevents) × (s' : Sched) × (kevents_poll stay 4 (7 ∷ 9 ∷ []) (0, events, sched) ≡ (do
      s'' ← scheduler_yield s'
      w ← stay (0, k', s'')
      finish_poll 4 (7 ∷ 9 ∷ []) 1 sched.preempt w))
    × Asleep (7 ∷ 9 ∷ []) waiting 1 k' s'
kevents_poll-Asleep_example =
    kevents_poll-Asleep stay 0 4 (7 ∷ 9 ∷ []) events waiting sched held 1 events-IsValid
      sched-IsValid sched-IsCurrent refl
