-- ===== src/TimerHeap/Tests.antt =====
-- Runs of the timer heap, and the theorems at concrete heaps.
use munk_os.Prelude.{
  ℕ, ◌+◌, ◌*◌, ◌^◌, ◌/◌, ◌≡◌, refl, arith, update, List, [], ◌∷◌, Outcome, ok, panic, inl, inr,
}
use munk_os.FrameAlloc.Orders.{psize2order, halving}
use munk_os.TimerHeap.{Timers, min_heapify, shrink, timer_peek, timer_insert, timer_pop, dispatch}
use munk_os.TimerHeap.Laws.{IsValid, Inserted, timer_insert-Inserted, Popped, timer_pop-Popped}
use munk_os.TimerHeap.Dispatch.{Dispatched, dispatch-Dispatched}

-- Three timers, which expire at 1, 5 and 3; a timer's number is ten times its time.
abbrev three : Timers
three = record {
  heap = update (update (update (λ i. 0) 0 10) 1 50) 2 30;
  size = 3;
  capacity = 3000;
  expiration_time = λ x. x / 10;
}

three-IsValid : IsValid three
three-IsValid = record { order = λ i q k. ground arith; room = inr (refl, omega arith) }

-- The caches give no block.
abbrev no_block : ℕ → Outcome (ℕ → ℕ)
no_block size = panic

abbrev record_launch : ℕ → List ℕ → Outcome (List ℕ)
record_launch x s = ok (x ∷ s)

abbrev fired_in : Outcome (List ℕ × Timers × List ℕ) → List ℕ
fired_in (ok (xs, t, s)) = xs
fired_in _ = []

fires_in_order : fired_in (dispatch no_block record_launch 4 3 three []) ≡ 10 ∷ 30 ∷ []
unfolding dispatch timer_peek timer_pop shrink min_heapify
fires_in_order = refl

-- Before the first timer there is no array.
abbrev none_yet : Timers
none_yet = record { heap = λ i. 0; size = 0; capacity = 0; expiration_time = λ x. x / 10 }

abbrev zero_block : ℕ → Outcome (ℕ → ℕ)
zero_block size = ok (λ i. 0)

none_yet-IsValid : IsValid none_yet
none_yet-IsValid = record { order = λ i q k. absurd (omega arith); room = inl (refl, refl) }

timer_insert-Inserted_example : Inserted none_yet 20 (timer_insert zero_block none_yet 20)
timer_insert-Inserted_example =
    timer_insert-Inserted zero_block none_yet 20 none_yet-IsValid
      (record { fits = omega arith; given = λ e. (λ i. 0, refl) })

timer_pop-Popped_example : Popped three (timer_pop no_block three)
timer_pop-Popped_example =
    timer_pop-Popped no_block three three-IsValid (inl (omega arith)) (omega arith)

dispatch-Dispatched_example :
    Dispatched record_launch (λ x. x / 10) 3 three [] (dispatch no_block record_launch 4 3 three [])
dispatch-Dispatched_example =
    dispatch-Dispatched no_block record_launch (λ x. Unit {0}) (λ s. Unit {0})
      (λ x u _ _. (x ∷ u, refl, tt)) 4 (λ x. x / 10) 3 three [] (omega arith) (omega arith)
      three-IsValid refl (λ x c. tt) tt

-- The first block of the array, for 3000 timers, has 8 pages.
first_order : psize2order (3000 * 8) ≡ ok 3
unfolding psize2order halving
first_order = refl

-- A hundred timers, in the order of their addresses and times.
abbrev hundred : Timers
hundred = record {
  heap = λ i. (i + 1) * 2 ^ 24;
  size = 100;
  capacity = 3000;
  expiration_time = λ x. x / 10;
}
