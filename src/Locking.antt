-- ===== src/Locking.antt =====
-- The spin locks of kernel/src/std/locking.c with the types of kernel/include/locking.h: several
-- processors that take and release one lock by `spin_lock_global` and `spin_unlock_global`, a shared
-- access at a time. The interrupt flag of a processor is its own; the lock word and `old_state` are
-- shared. A processor that stops for a suspected deadlock stays where it is.
pub mod Exclusion
pub mod Saving
mod Tests
use munk_os.Prelude.{ℕ, ◌+◌, ◌≡◌, Bool, true, false, ltb, ◌==◌, if◌then◌else◌, update}

-- `k_spinlock_t`
pub record SpinLock : Type 0 where
  pub lock : ℕ
  pub old_state : Bool

-- Where a processor stands.
pub data Pc : Type 0 where
  -- before `spin_lock_global`
  outside : Pc
  -- in the loop of `spin_lock`, after so many failed attempts
  spinning : (c : ℕ) → Pc
  -- after the panic of that loop
  stuck : Pc
  -- between the two calls
  holding : Pc
  -- in `spin_unlock_global`, behind `spin_unlock`
  unlocked : Pc

pub record Processors : Type 0 where
  pub spin : SpinLock
  -- `preempt_fetch` reads it
  pub interrupts : ℕ → Bool
  pub pc : ℕ → Pc

abbrev pub max_spins : ℕ
max_spins = 10000000

-- `lock->old_state = preempt_fetch_disable();`
unfoldable pub save : Processors → ℕ → Processors
save s i = record s {
  spin = record s.spin { old_state = s.interrupts i };
  interrupts = update s.interrupts i false;
  pc = update s.pc i (spinning 0);
}

-- One round of the loop of `spin_lock`, with the atomic test and set.
unfoldable pub test_and_set : Processors → ℕ → ℕ → Processors
test_and_set s i c =
    if s.spin.lock == 0
    then record s { spin = record s.spin { lock = 1 }; pc = update s.pc i holding }
    else record s { pc = update s.pc i (if ltb max_spins (c + 1) then stuck else spinning (c + 1)) }

unfoldable pub spin_unlock : Processors → ℕ → Processors
spin_unlock s i = record s { spin = record s.spin { lock = 0 }; pc = update s.pc i unlocked }

-- `preempt_restore(lock->old_state);`
unfoldable pub restore : Processors → ℕ → Processors
restore s i = record s {
  interrupts = if s.spin.old_state then update s.interrupts i true else s.interrupts;
  pc = update s.pc i outside;
}

move_at : Processors → ℕ → Pc → Processors
move_at s i outside = save s i
move_at s i (spinning c) = test_and_set s i c
move_at s i stuck = s
move_at s i holding = spin_unlock s i
move_at s i unlocked = restore s i

-- The next step of processor `i`, through the calls in turn.
unfoldable pub move : Processors → ℕ → Processors
unfolding move_at save test_and_set spin_unlock restore
move s i = move_at s i (s.pc i)

-- What the processors can reach in any order of their steps. A processor may stay outside for as
-- long as it likes.
pub data Reach (s : Processors) : Processors → Type 0 where
  start : Reach s s
  later : {t : Processors} → Reach s t → (i : ℕ) → Reach s (move t i)

-- The lock is free, and no processor is inside a call.
pub record IsInitial (s : Processors) : Type 0 where
  pub free : s.spin.lock ≡ 0
  pub out : (i : ℕ) → s.pc i ≡ outside
