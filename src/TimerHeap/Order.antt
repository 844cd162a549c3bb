-- ===== src/TimerHeap/Order.antt =====
-- The order of a binary heap in an array.
use munk_os.Prelude.{ℕ, zero, suc, ◌<◌, ◌≤◌, ◌≡◌, arith, ◌==◌, Bool-cases, ==_iff, inl, inr}
use munk_os.TimerHeap.{get_parent}

-- No timer of the first `n` expires before its parent.
abbrev pub IsHeap : (ℕ → ℕ) → ℕ → (ℕ → ℕ) → Type 0
IsHeap e n h = (i : ℕ) → 0 < i → i < n → e (h (get_parent i)) ≤ e (h i)

root_least_up_to :
    (e : ℕ → ℕ) (n : ℕ) (h : ℕ → ℕ) (m i : ℕ) → IsHeap e n h → i ≤ m → i < n → e (h 0) ≤ e (h i)
root_least_up_to e n h zero i o l k = let z : i ≡ 0 = omega arith in rw z (omega arith)
root_least_up_to e n h (suc m) i o l k = elim (Bool-cases (i == 0)) [
  | inl z ↦ rw ((==_iff i 0).0 z) (omega arith)
  | inr z ↦
      let pos : 0 < i = ground (arith, z) in
      omega (
        arith,
        o i pos k,
        root_least_up_to e n h m (get_parent i) o (omega (arith, pos, l)) (omega (arith, k)),
      )
]

-- The root expires first.
pub root_least : (e : ℕ → ℕ) (n : ℕ) (h : ℕ → ℕ) (i : ℕ) → IsHeap e n h → i < n → e (h 0) ≤ e (h i)
root_least e n h i o k = root_least_up_to e n h i i o (omega arith) k
