-- ===== src/TimerHeap/Contents.antt =====
-- What an array holds up to a bound, as a count for each value.
use munk_os.Prelude.{
  ℕ, zero, suc, ◌+◌, ◌<◌, ◌≡◌, refl, ap, arith, update, ◌==◌, ==_iff, if◌then◌else◌, Bool-cases,
  inl, inr, ◌≤◌,
}
use munk_os.TimerHeap.{swap}

abbrev pub is : ℕ → ℕ → ℕ
is x y = if x == y then 1 else 0

abbrev pub count : ℕ → (ℕ → ℕ) → ℕ → ℕ
count zero h x = 0
count (suc n) h x = count n h x + is (h n) x

pub count-above : (n : ℕ) (h : ℕ → ℕ) (i v x : ℕ) → n ≤ i → count n (update h i v) x ≡ count n h x
count-above zero h i v x l = refl
count-above (suc n) h i v x l = ground (arith, count-above n h i v x (omega arith))

pub count-update :
    (n : ℕ) (h : ℕ → ℕ) (i v x : ℕ)
    → i < n
    → count n (update h i v) x + is (h i) x ≡ count n h x + is v x
count-update zero h i v x l = absurd (omega arith)
count-update (suc n) h i v x l = elim (Bool-cases (n == i)) [
  | inl e ↦ let j = (==_iff n i).0 e in rw (e, j, count-above i h i v x (omega arith)) (omega arith)
  | inr e ↦ rw e (omega (arith, count-update n h i v x (ground (arith, e))))
]

pub count-swap :
    (n : ℕ) (h : ℕ → ℕ) (i j x : ℕ) → i < n → j < n → count n (swap i j h) x ≡ count n h x
count-swap n h i j x a b =
    let first = count-update n h i (h j) x a in
    let second = count-update n (update h i (h j)) j (h i) x b in
    let same : update h i (h j) j ≡ h j = ground arith in
    omega (arith, first, second, ap (λ v. is v x) same)

-- What is counted stands somewhere.
pub count-at : (n : ℕ) (h : ℕ → ℕ) (x : ℕ) → 0 < count n h x → (i : ℕ) × (i < n) × (h i ≡ x)
count-at zero h x c = absurd (omega arith)
count-at (suc n) h x c = elim (Bool-cases (h n == x)) [
  | inl e ↦ (n, omega arith, (==_iff (h n) x).0 e)
  | inr e ↦ let r = count-at n h x (ground (arith, e)) in (r.0, omega (arith, r.1), r.2)
]
