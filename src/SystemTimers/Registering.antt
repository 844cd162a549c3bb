-- ===== src/SystemTimers/Registering.antt =====
-- `register_system_timer` of kernel/src/misc/time.c.
use munk_os.Prelude.{
  ℕ, zero, suc, ◌+◌, ◌%◌, ◌^◌, ◌<◌, ◌≡◌, refl, arith, List, [], Outcome, ok, update, ◌==◌, ==_iff,
  Bool-cases, inl, inr, false,
}
use munk_os.Links.{null}
use munk_os.TimerHeap.{Timers, get_parent}
use munk_os.TimerHeap.Contents.{is, count}
use munk_os.TimerHeap.Laws
use munk_os.TimerHeap.Laws.{timers, timer_insert-Inserted}
use munk_os.Events.{Kevents}
use munk_os.Events.Subscribers
use munk_os.SystemTimers.{System, prepare, register_system_timer}

absent : (n : ℕ) (h : ℕ → ℕ) (x i : ℕ) → count n h x ≡ 0 → i < n → (h i == x) ≡ false
absent zero h x i c l = absurd (omega arith)
absent (suc n) h x i c l = elim (Bool-cases (i == n)) [
  | inl e ↦ rw ((==_iff i n).0 e) (ground (arith, c))
  | inr e ↦ absent n h x i (omega (arith, c)) (ground (arith, e, l))
]

-- Setting the time of a timer that is not in the heap keeps the heap.
set_time-IsValid :
    (t : Timers) (tmr time : ℕ)
    → Laws.IsValid t
    → timers t tmr ≡ 0
    → Laws.IsValid (record t { expiration_time = update t.expiration_time tmr time })
set_time-IsValid t tmr time v out = record {
  order = λ i pos l.
      let here = absent t.size t.heap tmr i out l in
      let above = absent t.size t.heap tmr (get_parent i) out (omega (arith, l)) in
      ground (arith, here, above, v.order i pos l);
  room = v.room;
}

-- An event that is set up anew has no subscribers.
cleared-IsValid :
    (k : Kevents) (w : ℕ → List ℕ) (ev : ℕ)
    → Subscribers.IsValid k w
    → Subscribers.IsValid
        (record k {
          subscribers = update k.subscribers ev null;
          unprocessed = update k.unprocessed ev 0;
        })
        (update w ev [])
cleared-IsValid k w ev v =
    let u = v.linked in
    record {
      lists = update v.lists ev [];
      pool = v.pool;
      linked = record {
        each = λ j. elim (Bool-cases (j == ev)) [
          | inl e ↦ rw e (null, (refl, refl))
          | inr e ↦ rw e (u.each j)
        ];
        apart = λ i j ne a at_i. ground (arith, u.apart i j ne a);
        stack = u.stack;
        idle = λ j a i. ground (arith, u.idle j a i);
        made_pool = u.made_pool;
        made = λ j a i. ground (arith, u.made j a);
      };
      waiting = λ j. elim (Bool-cases (j == ev)) [ inl e ↦ rw e refl | inr e ↦ rw e (v.waiting j) ];
    }

-- The outcome of registering a timer.
pub record Registered (y : System) (w : ℕ → List ℕ) (tmr ms : ℕ) (r : Outcome System) : Type 0 where
  pub result : System
  pub runs : r ≡ ok result
  pub valid : Laws.IsValid result.timers
  pub holds : (x : ℕ) → timers result.timers x ≡ timers y.timers x + is tmr x
  pub times :
      result.timers.expiration_time
      ≡ update y.timers.expiration_time tmr ((y.system_ticks + ms) % 2 ^ 64)
  pub waiting : Subscribers.IsValid result.events (update w tmr [])
  pub pending : result.events.unprocessed ≡ update y.events.unprocessed tmr 0
  pub ticks_same : result.system_ticks ≡ y.system_ticks
  pub sched_same : result.sched ≡ y.sched

-- Registering a timer that is not in the heap, with fewer than 3000 timers in the first block of
-- the array, or none and a block that `kmalloc` gives, returns: the heap stays valid and has the timer once more, with the time `ms` ticks from now, no other
-- time changes, and no thread waits for its event, which is not pending.
pub register_system_timer-Registered :
    (kmalloc : ℕ → Outcome (ℕ → ℕ)) (y : System) (w : ℕ → List ℕ) (tmr ms : ℕ)
    → Laws.IsValid y.timers
    → Laws.HasRoom kmalloc y.timers
    → timers y.timers tmr ≡ 0
    → Subscribers.IsValid y.events w
    → Registered y w tmr ms (register_system_timer kmalloc y tmr ms)
unfolding register_system_timer
register_system_timer-Registered kmalloc y w tmr ms v r out u =
    let y' = prepare y tmr ms in
    let i =
      timer_insert-Inserted kmalloc y'.timers tmr
        (set_time-IsValid y.timers tmr ((y.system_ticks + ms) % 2 ^ 64) v out)
        (record { fits = r.fits; given = r.given }) in
    record {
      result = record y' { timers = i.result };
      runs = rw i.runs refl;
      valid = i.valid;
      holds = i.holds;
      times = i.same_times;
      waiting = cleared-IsValid y.events w tmr u;
      pending = refl;
      ticks_same = refl;
      sched_same = refl;
    }
