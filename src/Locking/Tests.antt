-- ===== src/Locking/Tests.antt =====
-- Processors outside a free lock; processor 0 has its interrupts enabled, and no other.
use munk_os.Prelude.{ℕ, ◌≡◌, ◌≢◌, refl, arith, false, ◌==◌}
use munk_os.Locking.{Processors, outside, holding, Reach, start, later, IsInitial, move}
use munk_os.Locking.Exclusion.{mutual_exclusion}
use munk_os.Locking.Saving.{interrupts-lost}

abbrev at_rest : Processors
at_rest = record {
  spin = record { lock = 0; old_state = false };
  interrupts = λ i. i == 0;
  pc = λ i. outside;
}

at_rest-IsInitial : IsInitial at_rest
at_rest-IsInitial = record { free = refl; out = λ i. refl }

-- Processor 0 has taken the lock.
abbrev locked : Processors
locked = move (move at_rest 0) 0

locked_holds : locked.pc 0 ≡ holding
unfolding move
locked_holds = refl

mutual_exclusion_example : (locked.spin.lock ≢ 0) × (locked.pc 1 ≡ holding → ◌≡◌ {A = ℕ} 0 1)
mutual_exclusion_example =
    mutual_exclusion at_rest-IsInitial (later (later start 0) 0) 0 1 locked_holds

interrupts-lost_example :
    (t : Processors) × Reach at_rest t × (t.pc 0 ≡ outside) × (t.interrupts 0 ≡ false)
interrupts-lost_example = interrupts-lost at_rest 0 1 at_rest-IsInitial (ground arith) refl refl
