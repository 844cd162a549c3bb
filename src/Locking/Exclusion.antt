-- ===== src/Locking/Exclusion.antt =====
-- Mutual exclusion of the spin locks of kernel/src/std/locking.c.
use munk_os.Prelude.{ℕ, ◌≡◌, ◌≢◌, refl, arith, ◌==◌, Bool-cases, inl, inr}
use munk_os.Locking.{
  Processors, Pc, outside, spinning, stuck, holding, unlocked, move_at, save, test_and_set,
  spin_unlock, restore, move, Reach, start, later, IsInitial,
}

-- A processor that holds the lock has set it, and is the only one.
pub record IsHeld (s : Processors) : Type 0 where
  pub set : (i : ℕ) → s.pc i ≡ holding → s.spin.lock ≢ 0
  pub unique : (i j : ℕ) → s.pc i ≡ holding → s.pc j ≡ holding → i ≡ j

move_at-IsHeld : (s : Processors) (i : ℕ) (p : Pc) → s.pc i ≡ p → IsHeld s → IsHeld (move_at s i p)
unfolding move_at save test_and_set spin_unlock restore
move_at-IsHeld s i outside e v = record {
  set = λ a h. ground (arith, v.set a);
  unique = λ a b h k. ground (arith, v.unique a b);
}
move_at-IsHeld s i stuck e v = v
move_at-IsHeld s i (spinning c) e v = elim (Bool-cases (s.spin.lock == 0)) [
  | inl z ↦ rw z (record {
    set = λ a h. ground arith;
    unique = λ a b h k. ground (arith, v.set a, v.set b, z);
  })
  | inr z ↦ rw z (record {
    set = λ a h. ground (arith, v.set a, z);
    unique = λ a b h k. ground (arith, v.unique a b);
  })
]
move_at-IsHeld s i holding e v = record {
  set = λ a h. ground (arith, v.unique a i, e);
  unique = λ a b h k. ground (arith, v.unique a b);
}
move_at-IsHeld s i unlocked e v = record {
  set = λ a h. ground (arith, v.set a);
  unique = λ a b h k. ground (arith, v.unique a b);
}

move-IsHeld : (s : Processors) (i : ℕ) → IsHeld s → IsHeld (move s i)
unfolding move
move-IsHeld s i v = move_at-IsHeld s i (s.pc i) refl v

Reach-IsHeld : {s t : Processors} → IsHeld s → Reach s t → IsHeld t
Reach-IsHeld v start = v
Reach-IsHeld v (later {t} r i) = move-IsHeld t i (Reach-IsHeld v r)

initial-IsHeld : (s : Processors) → IsInitial s → IsHeld s
initial-IsHeld s v = record { set = λ i h. cc (v.out i, h); unique = λ i j h k. cc (v.out i, h) }

-- However the processors interleave, starting outside with the lock free, no two of them are
-- between `spin_lock_global` and `spin_unlock_global` at once, and the lock word is set while one
-- of them is.
pub mutual_exclusion :
    {s t : Processors}
    → IsInitial s
    → Reach s t
    → (i j : ℕ) → t.pc i ≡ holding
    → (t.spin.lock ≢ 0) × (t.pc j ≡ holding → i ≡ j)
mutual_exclusion {s} v r i j h =
    let k = Reach-IsHeld (initial-IsHeld s v) r in (k.set i h, k.unique i j h)
