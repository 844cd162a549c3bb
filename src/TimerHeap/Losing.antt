-- ===== src/TimerHeap/Losing.antt =====
-- What becomes of the timers when `timer_pop` halves the first block of the array: `krealloc` of
-- kernel/src/mm/slab.c copies as many bytes as the order of the old block, which is 3.
use munk_os.Prelude.{ℕ, ◌+◌, ◌/◌, ◌^◌, ◌<◌, ◌≡◌, ◌==◌, false, ok, Outcome}
use munk_os.TimerHeap.{Timers}
use munk_os.TimerHeap.Laws.{timers}

-- No entry of the new block agrees with `x` above the three low bytes.
abbrev pub Differs : (ℕ → ℕ) → ℕ → ℕ → Type 0
Differs new n x = (i : ℕ) → i < n → (new i / 2 ^ 24 == x / 2 ^ 24) ≡ false

-- The outcome of a pop after which the timer `x` is not in the heap, whose size is one less.
pub record Lost (t : Timers) (x : ℕ) (r : Outcome (ℕ × Timers)) : Type 0 where
  pub result : Timers
  pub runs : r ≡ ok (t.heap 0, result)
  pub one_less : t.size ≡ result.size + 1
  pub gone : timers result x ≡ 0
