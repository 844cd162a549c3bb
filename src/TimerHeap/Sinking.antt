-- ===== src/TimerHeap/Sinking.antt =====
-- `min_heapify`: it restores the order when one timer may expire after its children.
use munk_os.Prelude.{
  ℕ, zero, suc, ◌+◌, ◌*◌, ◌<◌, ◌≤◌, ◌≡◌, refl, arith, ◌==◌, false, ltb, Bool-cases, ==_iff, inl,
  inr, ok, ◌∙◌, ◌⊎◌,
}
use munk_os.TimerHeap.{get_parent, swap, sooner, least_of, min_heapify}
use munk_os.TimerHeap.Contents.{count, count-swap}
use munk_os.TimerHeap.Order.{IsHeap}

-- The order holds but between `idx` and its children.
pub record Sinks (e : ℕ → ℕ) (n : ℕ) (h : ℕ → ℕ) (idx : ℕ) : Type 0 where
  pub others :
      (i : ℕ) → 0 < i → i < n → (get_parent i == idx) ≡ false → e (h (get_parent i)) ≤ e (h i)
  pub around :
      (i : ℕ) → 0 < i → i < n → get_parent i ≡ idx → 0 < idx → e (h (get_parent idx)) ≤ e (h i)

-- Where `least_of` points: no child expires before it.
record IsLeast (e : ℕ → ℕ) (n : ℕ) (h : ℕ → ℕ) (idx r : ℕ) : Type 0 where
  place : (r ≡ idx) ⊎ ((get_parent r ≡ idx) × (idx < r) × (r < n))
  below : e (h r) ≤ e (h idx)
  least : (i : ℕ) → 0 < i → i < n → get_parent i ≡ idx → e (h r) ≤ e (h i)

child_cases : (i idx : ℕ) → 0 < i → get_parent i ≡ idx → (i ≡ idx * 2 + 1) ⊎ (i ≡ idx * 2 + 2)
child_cases i idx q h = elim (Bool-cases (i == idx * 2 + 1)) [
  | inl a ↦ inl ((==_iff i (idx * 2 + 1)).0 a)
  | inr a ↦ inr (ground (arith, a, h))
]

-- The two outcomes of a comparison with a child.
data Sooner (e : ℕ → ℕ) (n : ℕ) (h : ℕ → ℕ) (child best r : ℕ) : Type 0 where
  takes : r ≡ child → child < n → e (h child) < e (h best) → Sooner e n h child best r
  keeps : r ≡ best → (child < n → e (h best) ≤ e (h child)) → Sooner e n h child best r

sooner-Sooner :
    (e : ℕ → ℕ) (n : ℕ) (h : ℕ → ℕ) (child best : ℕ)
    → Sooner e n h child best (sooner e n h child best)
sooner-Sooner e n h child best = elim (Bool-cases (ltb child n)) [
  | inr a ↦ keeps (rw a refl) (λ l. absurd (ground (arith, a, l)))
  | inl a ↦ elim (Bool-cases (ltb (e (h child)) (e (h best)))) [
    | inl s ↦ takes (rw (a, s) refl) (ground (arith, a)) (ground (arith, s))
    | inr s ↦ keeps (rw (a, s) refl) (λ l. ground (arith, s))
  ]
]

IsLeast-Sooner :
    (e : ℕ → ℕ) (n : ℕ) (h : ℕ → ℕ) (idx q r : ℕ)
    → Sooner e n h (idx * 2 + 1) idx q
    → Sooner e n h (idx * 2 + 2) q r
    → IsLeast e n h idx r
IsLeast-Sooner e n h idx q r (takes p l s) (takes p' l' s') = record {
  place = inr (ground (arith, p'));
  below = grind (arith, p, p', s, s');
  least = λ i z k up. grind (arith, child_cases i idx z up, p, p', s, s');
}
IsLeast-Sooner e n h idx q r (takes p l s) (keeps p' s') = record {
  place = inr (ground (arith, p, p'));
  below = grind (arith, p, p', s, s');
  least = λ i z k up. grind (arith, child_cases i idx z up, p, p', s, s');
}
IsLeast-Sooner e n h idx q r (keeps p s) (takes p' l' s') = record {
  place = inr (ground (arith, p'));
  below = grind (arith, p, p', s, s');
  least = λ i z k up. grind (arith, child_cases i idx z up, p, p', s, s');
}
IsLeast-Sooner e n h idx q r (keeps p s) (keeps p' s') = record {
  place = inl (p' ∙ p);
  below = grind (arith, p, p', s, s');
  least = λ i z k up. grind (arith, child_cases i idx z up, p, p', s, s');
}

least_of-IsLeast :
    (e : ℕ → ℕ) (n : ℕ) (h : ℕ → ℕ) (idx : ℕ) → IsLeast e n h idx (least_of e n h idx)
least_of-IsLeast e n h idx =
    let q = sooner e n h (idx * 2 + 1) idx in
    IsLeast-Sooner e n h idx q (sooner e n h (idx * 2 + 2) q)
      (sooner-Sooner e n h (idx * 2 + 1) idx) (sooner-Sooner e n h (idx * 2 + 2) q)

sink_others :
    (e : ℕ → ℕ) (n : ℕ) (h : ℕ → ℕ) (idx r : ℕ)
    → Sinks e n h idx
    → IsLeast e n h idx r
    → get_parent r ≡ idx
    → idx < r
    → (i : ℕ) → 0 < i
    → i < n
    → (get_parent i == r) ≡ false
    → e (swap idx r h (get_parent i)) ≤ e (swap idx r h i)
sink_others e n h idx r c m p g i q k ne =
    grind (arith, c.others i q k, m.least i q k, c.around r, m.below)

sink_around :
    (e : ℕ → ℕ) (n : ℕ) (h : ℕ → ℕ) (idx r : ℕ)
    → Sinks e n h idx
    → IsLeast e n h idx r
    → get_parent r ≡ idx
    → idx < r
    → (i : ℕ) → 0 < i
    → i < n
    → get_parent i ≡ r
    → 0 < r
    → e (swap idx r h (get_parent r)) ≤ e (swap idx r h i)
sink_around e n h idx r c m p g i q k s up = grind (arith, c.others i q k, m.below)

moved :
    (r idx n : ℕ)
    → (r ≡ idx) ⊎ ((get_parent r ≡ idx) × (idx < r) × (r < n))
    → (r == idx) ≡ false
    → (get_parent r ≡ idx) × (idx < r) × (r < n)
moved r idx n (inl a) z = absurd (ground (arith, a, z))
moved r idx n (inr a) z = a

sink :
    (e : ℕ → ℕ) (n : ℕ) (h : ℕ → ℕ) (idx r : ℕ)
    → Sinks e n h idx
    → IsLeast e n h idx r
    → get_parent r ≡ idx
    → idx < r
    → Sinks e n (swap idx r h) r
sink e n h idx r c m p g = record {
  others = sink_others e n h idx r c m p g;
  around = sink_around e n h idx r c m p g;
}

stays :
    (e : ℕ → ℕ) (n : ℕ) (h : ℕ → ℕ) (idx r : ℕ)
    → r ≡ idx
    → Sinks e n h idx
    → IsLeast e n h idx r
    → IsHeap e n h
stays e n h idx r s c m i q k = grind (arith, s, c.others i q k, m.least i q k)

-- With fuel for each position from `idx` on, `min_heapify` returns, the order then holds, and the
-- array holds what it held.
pub min_heapify-IsHeap :
    (fuel : ℕ) (e : ℕ → ℕ) (n idx : ℕ) (h : ℕ → ℕ)
    → n ≤ idx + fuel
    → idx < n
    → Sinks e n h idx
    → (k : ℕ → ℕ) × (min_heapify fuel e n idx h ≡ ok k)
      × IsHeap e n k
      × ((x : ℕ) → count n k x ≡ count n h x)
unfolding min_heapify
min_heapify-IsHeap zero e n idx h f l c = absurd (omega arith)
min_heapify-IsHeap (suc fuel) e n idx h f l c =
    let r = least_of e n h idx in
    let m = least_of-IsLeast e n h idx in
    elim (Bool-cases (r == idx)) [
      | inl z ↦ (h, rw z refl, stays e n h idx r ((==_iff r idx).0 z) c m, λ x. refl)
      | inr z ↦
          let p : (get_parent r ≡ idx) × (idx < r) × (r < n) = moved r idx n m.place z in
          let s =
            min_heapify-IsHeap fuel e n r (swap idx r h) (omega (arith, f, p.1)) p.2
              (sink e n h idx r c m p.0 p.1) in
          (s.0, rw z s.1, s.2, λ x. s.3 x ∙ count-swap n h idx r x l p.2)
    ]

-- Whatever the order of the array, `min_heapify` returns, and the array holds what it held.
pub min_heapify-count :
    (fuel : ℕ) (e : ℕ → ℕ) (n idx : ℕ) (h : ℕ → ℕ)
    → n ≤ idx + fuel
    → idx < n
    → (k : ℕ → ℕ) × (min_heapify fuel e n idx h ≡ ok k) × ((x : ℕ) → count n k x ≡ count n h x)
unfolding min_heapify
min_heapify-count zero e n idx h f l = absurd (omega arith)
min_heapify-count (suc fuel) e n idx h f l =
    let r = least_of e n h idx in
    elim (Bool-cases (r == idx)) [
      | inl z ↦ (h, rw z refl, λ x. refl)
      | inr z ↦
          let p : (get_parent r ≡ idx) × (idx < r) × (r < n) =
            moved r idx n (least_of-IsLeast e n h idx).place z in
          let s = min_heapify-count fuel e n r (swap idx r h) (omega (arith, f, p.1)) p.2 in
          (s.0, rw z s.1, λ x. s.2 x ∙ count-swap n h idx r x l p.2)
    ]
