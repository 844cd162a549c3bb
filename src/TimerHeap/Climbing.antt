-- ===== src/TimerHeap/Climbing.antt =====
-- The loop of `timer_insert`: it restores the order when one timer may expire before its parent.
use munk_os.Prelude.{
  ℕ, zero, suc, ◌<◌, ◌≤◌, ◌≡◌, refl, arith, ◌==◌, false, ltb, Bool-cases, ==_iff, inl, inr, ok, ◌∙◌,
}
use mathlib.Core.Path.{subst}
use munk_os.TimerHeap.{get_parent, swap, bubble_up}
use munk_os.TimerHeap.Contents.{count, count-swap}
use munk_os.TimerHeap.Order.{IsHeap}

-- The order holds but between `idx` and its parent.
pub record Climbs (e : ℕ → ℕ) (n : ℕ) (h : ℕ → ℕ) (idx : ℕ) : Type 0 where
  pub others : (i : ℕ) → 0 < i → i < n → (i == idx) ≡ false → e (h (get_parent i)) ≤ e (h i)
  pub around :
      (i : ℕ) → 0 < i → i < n → get_parent i ≡ idx → 0 < idx → e (h (get_parent idx)) ≤ e (h i)

climb_others :
    (e : ℕ → ℕ) (n : ℕ) (h : ℕ → ℕ) (idx : ℕ)
    → 0 < idx
    → idx < n
    → Climbs e n h idx
    → e (h idx) < e (h (get_parent idx))
    → (i : ℕ) → 0 < i
    → i < n
    → (i == get_parent idx) ≡ false
    → e (swap idx (get_parent idx) h (get_parent i)) ≤ e (swap idx (get_parent idx) h i)
climb_others e n h idx pos l c less i q k ne = grind (arith, c.others i q k, c.around i q k)

climb_around :
    (e : ℕ → ℕ) (n : ℕ) (h : ℕ → ℕ) (idx : ℕ)
    → 0 < idx
    → idx < n
    → Climbs e n h idx
    → (i : ℕ) → 0 < i
    → i < n
    → get_parent i ≡ get_parent idx
    → 0 < get_parent idx
    → e (swap idx (get_parent idx) h (get_parent (get_parent idx)))
      ≤ e (swap idx (get_parent idx) h i)
climb_around e n h idx pos l c i q k same up =
    grind (arith, c.others i q k, c.others (get_parent idx))

climb :
    (e : ℕ → ℕ) (n : ℕ) (h : ℕ → ℕ) (idx : ℕ)
    → 0 < idx
    → idx < n
    → Climbs e n h idx
    → e (h idx) < e (h (get_parent idx))
    → Climbs e n (swap idx (get_parent idx) h) (get_parent idx)
climb e n h idx pos l c less = record {
  others = climb_others e n h idx pos l c less;
  around = climb_around e n h idx pos l c;
}

-- The loop stops where the order holds: at the root, or below a parent that does not expire later.
stops_at_root : (e : ℕ → ℕ) (n : ℕ) (h : ℕ → ℕ) → Climbs e n h 0 → IsHeap e n h
stops_at_root e n h c i q k = c.others i q k (ground arith)

stops_below :
    (e : ℕ → ℕ) (n : ℕ) (h : ℕ → ℕ) (idx : ℕ)
    → Climbs e n h idx
    → e (h (get_parent idx)) ≤ e (h idx)
    → IsHeap e n h
stops_below e n h idx c le i q k = grind (arith, c.others i q k)

-- With fuel for each position above, the loop returns, the order then holds, and the array holds
-- what it held.
pub bubble_up-IsHeap :
    (fuel : ℕ) (e : ℕ → ℕ) (n idx : ℕ) (h : ℕ → ℕ)
    → idx < fuel
    → idx < n
    → Climbs e n h idx
    → (k : ℕ → ℕ) × (bubble_up fuel e idx h ≡ ok k)
      × IsHeap e n k
      × ((x : ℕ) → count n k x ≡ count n h x)
unfolding bubble_up
bubble_up-IsHeap zero e n idx h f l c = absurd (omega arith)
bubble_up-IsHeap (suc fuel) e n idx h f l c = elim (Bool-cases (idx == 0)) [
  | inl z ↦
      let at_root = subst (Climbs e n h) ((==_iff idx 0).0 z) c in
      (h, rw z refl, stops_at_root e n h at_root, λ x. refl)
  | inr z ↦ elim (Bool-cases (ltb (e (h idx)) (e (h (get_parent idx))))) [
    | inr s ↦ (h, rw (z, s) refl, stops_below e n h idx c (ground (arith, s)), λ x. refl)
    | inl s ↦
        let pos : 0 < idx = ground (arith, z) in
        let up = get_parent idx in
        let r =
          bubble_up-IsHeap fuel e n up (swap idx up h) (omega (arith, f, pos)) (omega (arith, l))
            (climb e n h idx pos l c (ground (arith, s))) in
        (r.0, rw (z, s) r.1, r.2, λ x. r.3 x ∙ count-swap n h idx up x l (omega (arith, l)))
  ]
]
