-- ===== src/Events/Polling.antt =====
-- `kevents_poll` of kernel/src/misc/kevent.c: the event it returns, or how it waits.
use munk_os.Prelude.{
  ℕ, ◌+◌, ◌-◌, ◌≡◌, ◌≢◌, refl, ap, sym, ◌∙◌, arith, Bool, true, false, List, [], ◌∷◌, ◌++◌, mem,
  ◌==◌, update, Outcome, ok, if◌then◌else◌, length, ◌>>=◌, none, some,
}
use munk_os.Scheduler.{Sched, sleeping, sleep_queue, scheduler_put_task2sleep, scheduler_yield}
use munk_os.Scheduler.Invariant
use munk_os.Scheduler.Waking.{scheduler_put_task2sleep-IsValid}
use munk_os.Events.{
  Kevents, find_unprocessed_from, find_unprocessed, kevent_subscribe, kevents_poll, finish_poll,
  preempt_restore,
}
use munk_os.Events.Subscribers.{IsValid, enlist_all, kevent_subscribe-Returned}
use munk_os.Events.Unsubscribing.{ahead, enlist_all-ahead}
use munk_os.Events.Launching.{off-IsValid}

-- None of the events has a launch that was not polled.
abbrev pub none_pending : Kevents → List ℕ → Bool
none_pending k [] = true
none_pending k (ev ∷ events) = if k.unprocessed ev == 0 then none_pending k events else false

-- One launch of `ev` is taken off.
abbrev pub taken_off : Kevents → ℕ → Kevents
taken_off k ev = record k { unprocessed = update k.unprocessed ev (k.unprocessed ev - 1) }

find_unprocessed_from-some :
    (i : ℕ) (k : Kevents) (before : List ℕ) (ev : ℕ) (after : List ℕ)
    → none_pending k before ≡ true
    → (k.unprocessed ev == 0) ≡ false
    → find_unprocessed_from i (before ++ ev ∷ after) k ≡ (some (i + length before), taken_off k ev)
unfolding find_unprocessed_from
find_unprocessed_from-some i k [] ev after quiet h = rw h (ground arith)
find_unprocessed_from-some i k (e ∷ before) ev after quiet h =
    ground (arith, find_unprocessed_from-some (i + 1) k before ev after)

find_unprocessed_from-none :
    (i : ℕ) (k : Kevents) (events : List ℕ)
    → none_pending k events ≡ true
    → find_unprocessed_from i events k ≡ (none, k)
unfolding find_unprocessed_from
find_unprocessed_from-none i k [] h = refl
find_unprocessed_from-none i k (e ∷ events) h =
    ground (arith, find_unprocessed_from-none (i + 1) k events)

restored_as :
    (s : Sched) (b : Bool) → s.preempt ≡ b → preempt_restore b (record s { preempt = false }) ≡ s
restored_as s true e = ap (λ b. record s { preempt = b }) (sym e)
restored_as s false e = ap (λ b. record s { preempt = b }) (sym e)

module _ {E : Type 0} (away : E × Kevents × Sched → Outcome (E × Kevents × Sched)) (x : E) where
  poll_finds :
      (fuel i : ℕ) (events : List ℕ) (k k' : Kevents) (s : Sched)
      → find_unprocessed events k ≡ (some i, k')
      → kevents_poll away fuel events (x, k, s)
        ≡ ok (some i, x, k', preempt_restore s.preempt (record s { preempt = false }))
  unfolding kevents_poll
  poll_finds fuel i events k k' s e = cc

  -- Polling returns the index of the first event that has been launched and not polled since,
  -- takes one launch off that event, and changes nothing else.
  pub kevents_poll-first :
      (fuel : ℕ) (k : Kevents) (s : Sched) (before : List ℕ) (ev : ℕ) (after : List ℕ)
      → none_pending k before ≡ true
      → k.unprocessed ev ≢ 0
      → kevents_poll away fuel (before ++ ev ∷ after) (x, k, s)
        ≡ ok (some (length before), x, taken_off k ev, s)
  kevents_poll-first fuel k s before ev after quiet h =
      poll_finds fuel (length before) (before ++ ev ∷ after) k (taken_off k ev) s
        (find_unprocessed_from-some 0 k before ev after quiet (ground (arith, h)) ∙ ground arith)
      ∙ ap (λ r. ok (some (length before), x, taken_off k ev, r)) (restored_as s s.preempt refl)

pub mem-ahead :
    (t : ℕ) (events : List ℕ) (ev : ℕ) (xs : List ℕ)
    → mem ev events ≡ true
    → mem t (ahead t events ev xs) ≡ true
mem-ahead t [] ev xs i = cc
mem-ahead t (e ∷ events) ev xs i = ground (arith, mem-ahead t events ev xs)

-- Thread `t` has gone to sleep, and waits for every event of the list.
pub record Asleep (events : List ℕ) (w : ℕ → List ℕ) (t : ℕ) (k : Kevents) (s : Sched)
    : Type 0 where
  pub threads : ℕ → List ℕ
  pub held : ℕ → List ℕ
  pub waiting : IsValid k threads
  pub added : (ev : ℕ) → threads ev ≡ ahead t events ev (w ev)
  pub waits : (ev : ℕ) → mem ev events ≡ true → mem t (threads ev) ≡ true
  pub valid : Invariant.IsValid s held
  pub sleeps : s.state t ≡ sleeping

module _ {E : Type 0} (away : E × Kevents × Sched → Outcome (E × Kevents × Sched)) (x : E) where
  poll_waits :
      (fuel : ℕ) (events : List ℕ) (k k' : Kevents) (s s' : Sched) (t : ℕ)
      → find_unprocessed events k ≡ (none, k)
      → s.curr_thread ≡ some t
      → kevent_subscribe events t k ≡ ok k'
      → scheduler_put_task2sleep (record s { preempt = false }) t ≡ ok s'
      → kevents_poll away fuel events (x, k, s) ≡ (do
        s'' ← scheduler_yield s'
        w ← away (x, k', s'')
        finish_poll fuel events t s.preempt w)
  unfolding kevents_poll
  poll_waits fuel events k k' s s' t e c sub zz = cc

  -- With no event pending, the polling thread waits for every event of the list, goes to sleep,
  -- and only then yields: it cannot miss an event launched from then on. When it is loaded again it
  -- looks for a pending event and unsubscribes.
  pub kevents_poll-Asleep :
      (fuel : ℕ) (events : List ℕ) (k : Kevents) (w : ℕ → List ℕ) (s : Sched) (c : ℕ → List ℕ)
      (t : ℕ)
      → IsValid k w
      → Invariant.IsValid s c
      → Invariant.IsCurrent s c t
      → none_pending k events ≡ true
      → (k' : Kevents) × (s' : Sched) × (kevents_poll away fuel events (x, k, s) ≡ (do
        s'' ← scheduler_yield s'
        w ← away (x, k', s'')
        finish_poll fuel events t s.preempt w))
        × Asleep events w t k' s'
  kevents_poll-Asleep fuel events k w s c t v u h quiet =
      let r = kevent_subscribe-Returned events t k w v in
      let off = record s { preempt = false } in
      let cur : Invariant.IsCurrent off c t = record {
        loaded = h.loaded;
        state = h.state;
        nowhere = h.nowhere;
        unlinked = h.unlinked;
      } in
      let (s', runs, ok_s, st, now) =
        scheduler_put_task2sleep-IsValid (off-IsValid s c false u) cur refl in
      (
        r.result,
        s',
        poll_waits fuel events k r.result s s' t (find_unprocessed_from-none 0 k events quiet)
            h.loaded r.runs runs,
        record {
          threads = enlist_all events t w;
          held = update c sleep_queue (c sleep_queue ++ t ∷ []);
          waiting = r.valid;
          added = enlist_all-ahead events t w;
          waits =
              λ ev i. ap (mem t) (enlist_all-ahead events t w ev) ∙ mem-ahead t events ev (w ev) i;
          valid = ok_s;
          sleeps = st;
        },
      )
