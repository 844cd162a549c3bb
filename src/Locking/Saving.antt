-- ===== src/Locking/Saving.antt =====
-- What becomes of the interrupt flags in `spin_lock_global` and `spin_unlock_global` of
-- kernel/src/std/locking.c, which keep the flag of a processor in the lock.
use munk_os.Prelude.{ℕ, ◌≡◌, ◌≢◌, refl, arith, true, false, update, ap, List, [], ◌∷◌, ◌∙◌}
use mathlib.Core.Path.{subst}
use munk_os.Locking.{
  Processors, outside, spinning, holding, unlocked, move, move_at, save, test_and_set, spin_unlock,
  restore, Reach, start, later, IsInitial,
}

-- The processors of a list move in turn.
abbrev pub run : Processors → List ℕ → Processors
run s [] = s
run s (i ∷ is) = run (move s i) is

run-Reach : (s t : Processors) (is : List ℕ) → Reach s t → Reach s (run t is)
run-Reach s t [] r = r
run-Reach s t (i ∷ is) r = run-Reach s (move t i) is (later r i)

acquired : Processors → ℕ → Processors
acquired s i = record s { spin = record s.spin { lock = 1 }; pc = update s.pc i holding }

run-save :
    (s : Processors) (i : ℕ) (is : List ℕ) → s.pc i ≡ outside → run s (i ∷ is) ≡ run (save s i) is
unfolding move
run-save s i is e = ap (λ p. run (move_at s i p) is) e ∙ (unfold move_at in refl)

run-acquired :
    (s : Processors) (i c : ℕ) (is : List ℕ)
    → s.pc i ≡ spinning c
    → s.spin.lock ≡ 0
    → run s (i ∷ is) ≡ run (acquired s i) is
unfolding move move_at test_and_set acquired
run-acquired s i c is e z = ap (λ t. run t is) (move_acquire e z)
  where
    move_acquire : s.pc i ≡ spinning c → s.spin.lock ≡ 0 → move s i ≡ acquired s i
    move_acquire e z = ground (arith, e, z)

run-spin_unlock :
    (s : Processors) (i : ℕ) (is : List ℕ)
    → s.pc i ≡ holding
    → run s (i ∷ is) ≡ run (spin_unlock s i) is
unfolding move
run-spin_unlock s i is e = ap (λ p. run (move_at s i p) is) e ∙ (unfold move_at in refl)

run-restore :
    (s : Processors) (i : ℕ) (is : List ℕ)
    → s.pc i ≡ unlocked
    → run s (i ∷ is) ≡ run (restore s i) is
unfolding move
run-restore s i is e = ap (λ p. run (move_at s i p) is) e ∙ (unfold move_at in refl)

-- A processor that takes a free lock and releases it with no other inside leaves the lock free and
-- every interrupt flag as it was, and is outside again.
pub alone-restores :
    (s : Processors) (i : ℕ)
    → IsInitial s
    → (t : Processors) × (run s (i ∷ i ∷ i ∷ i ∷ []) ≡ t)
      × (t.spin.lock ≡ 0)
      × ((j : ℕ) → (t.interrupts j ≡ s.interrupts j) × (t.pc j ≡ outside))
unfolding save spin_unlock restore acquired
alone-restores s i v =
    let s1 = save s i in
    let s2 = acquired s1 i in
    let s3 = spin_unlock s2 i in
    (
      restore s3 i,
      run-save s i (i ∷ i ∷ i ∷ []) (v.out i)
          ∙ run-acquired s1 i 0 (i ∷ i ∷ []) (ground arith) v.free
          ∙ run-spin_unlock s2 i (i ∷ []) (ground arith)
          ∙ run-restore s3 i [] (ground arith),
      refl,
      λ j. (ground arith, ground (arith, v.out j)),
    )

-- A processor that enters with its interrupts enabled can lose them: if another one, whose
-- interrupts are disabled, starts to wait for the lock in the meantime, the first is outside again
-- with its interrupts disabled.
pub interrupts-lost :
    (s : Processors) (i j : ℕ)
    → IsInitial s
    → i ≢ j
    → s.interrupts i ≡ true
    → s.interrupts j ≡ false
    → (t : Processors) × Reach s t × (t.pc i ≡ outside) × (t.interrupts i ≡ false)
unfolding save spin_unlock restore acquired
interrupts-lost s i j v ne on off =
    let s1 = save s i in
    let s2 = acquired s1 i in
    let s3 = save s2 j in
    let s4 = spin_unlock s3 i in
    let runs =
      run-save s i (i ∷ j ∷ i ∷ i ∷ []) (v.out i)
      ∙ run-acquired s1 i 0 (j ∷ i ∷ i ∷ []) (ground arith) v.free
      ∙ run-save s2 j (i ∷ i ∷ []) (ground (arith, v.out j, ne))
      ∙ run-spin_unlock s3 i (i ∷ []) (ground (arith, ne))
      ∙ run-restore s4 i [] (ground (arith, ne)) in
    (
      restore s4 i,
      subst (Reach s) runs (run-Reach s s (i ∷ i ∷ j ∷ i ∷ i ∷ []) start),
      ground arith,
      ground (arith, ne, off),
    )
