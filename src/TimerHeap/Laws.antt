-- ===== src/TimerHeap/Laws.antt =====
-- What inserting, peeking and popping do to the timers.
use munk_os.Prelude.{
  ℕ, suc, ◌+◌, ◌-◌, ◌*◌, ◌<◌, ◌≤◌, ◌≡◌, refl, ap, sym, arith, update, ◌==◌, false, ◌&&◌, ltb,
  Bool-cases, ==_iff, inl, inr, ok, Outcome, ◌∙◌, some, ◌⊎◌, false,
}
use mathlib.Core.Path.{subst}
use native.Mathlib.Numerals.{add-one}
use munk_os.TimerHeap.{Timers, grow, resize, krealloc, shrink, timer_insert, timer_peek, timer_pop}
use munk_os.TimerHeap.Contents.{is, count, count-at, count-update, count-above}
use munk_os.TimerHeap.Order.{IsHeap, root_least}
use munk_os.TimerHeap.Climbing.{Climbs, bubble_up-IsHeap}
use munk_os.TimerHeap.Sinking.{Sinks, min_heapify-IsHeap}

-- The timers are in heap order, and stand inside the first block of the array, which has 3000
-- places.
pub record IsValid (t : Timers) : Type 0 where
  pub order : IsHeap t.expiration_time t.size t.heap
  pub room : ((t.capacity ≡ 0) × (t.size ≡ 0)) ⊎ ((t.capacity ≡ 3000) × (t.size ≤ 3000))

-- How often a timer is in the heap.
abbrev pub timers : Timers → ℕ → ℕ
timers t x = count t.size t.heap x

module _ (kmalloc : ℕ → Outcome (ℕ → ℕ)) where
  -- One more timer fits in the first block; if there is no array yet, `kmalloc` gives that block.
  pub record HasRoom (t : Timers) : Type 0 where
    pub fits : t.size < 3000
    pub given : t.capacity ≡ 0 → (new : ℕ → ℕ) × (kmalloc 24000 ≡ ok new)

-- The outcome of an insertion.
pub record Inserted (t : Timers) (timer : ℕ) (r : Outcome Timers) : Type 0 where
  pub result : Timers
  pub runs : r ≡ ok result
  pub valid : IsValid result
  pub one_more : result.size ≡ t.size + 1
  pub same_times : result.expiration_time ≡ t.expiration_time
  pub holds : (x : ℕ) → timers result x ≡ timers t x + is timer x

-- The array after `grow`: the first block, which is new and has no timer yet, or the old one.
grow-room :
    (kmalloc : ℕ → Outcome (ℕ → ℕ)) (t : Timers)
    → IsValid t
    → HasRoom kmalloc t
    → (h : ℕ → ℕ) × (grow kmalloc t ≡ ok (record t { heap = h; capacity = 3000 }))
      × IsHeap t.expiration_time t.size h
      × ((x : ℕ) → count t.size h x ≡ count t.size t.heap x)
unfolding grow resize krealloc
grow-room kmalloc t v r = elim v.room [
  | inl (c, z) ↦
      let (new, g) = r.given c in
      (new, rw (z, c, g) refl, λ i q k. absurd (omega arith), λ x. rw z refl)
  | inr (c, l) ↦
      let e : (t.size == 3000) ≡ false = ground (arith, l) in
      (t.heap, rw (c, e) refl, v.order, λ x. refl)
]

count-new :
    (n : ℕ) (h : ℕ → ℕ) (timer x : ℕ)
    → count (n + 1) (update h n timer) x ≡ count n h x + is timer x
count-new n h timer x =
    let new : update h n timer n ≡ timer = ground arith in
    ap (λ k. count k (update h n timer) x) (add-one n)
    ∙ omega (arith, count-above n h n timer x (omega arith), ap (λ v. is v x) new)

new_Climbs :
    (e : ℕ → ℕ) (n : ℕ) (h : ℕ → ℕ) (timer : ℕ)
    → IsHeap e n h
    → Climbs e (n + 1) (update h n timer) n
new_Climbs e n h timer o = record {
  others = λ i q k ne. grind (arith, o i q);
  around = λ i q k p up. absurd (omega arith);
}

-- With fewer than 3000 timers in the first block of the array, or none and a block that `kmalloc`
-- gives, inserting a timer returns, writes inside the block, keeps the heap order, and adds exactly
-- that timer.
pub timer_insert-Inserted :
    (kmalloc : ℕ → Outcome (ℕ → ℕ)) (t : Timers) (timer : ℕ)
    → IsValid t
    → HasRoom kmalloc t
    → Inserted t timer (timer_insert kmalloc t timer)
unfolding timer_insert
timer_insert-Inserted kmalloc t timer v r =
    let (block, runs, order, same) = grow-room kmalloc t v r in
    let n = t.size in
    let h = update block n timer in
    let b =
      bubble_up-IsHeap (suc n) t.expiration_time (n + 1) n h (omega arith) (omega arith)
        (new_Climbs t.expiration_time n block timer order) in
    record {
      result = record t { capacity = 3000; heap = b.0; size = n + 1 };
      runs = rw (runs, b.1) refl;
      valid = record { order = b.2; room = inr (refl, omega (arith, r.fits)) };
      one_more = refl;
      same_times = refl;
      holds = λ x. b.3 x ∙ count-new n block timer x ∙ ap (λ k. k + is timer x) (same x);
    }

-- The outcome of a pop.
pub record Popped (t : Timers) (r : Outcome (ℕ × Timers)) : Type 0 where
  pub root : ℕ
  pub result : Timers
  pub runs : r ≡ ok (root, result)
  pub valid : IsValid result
  pub peeked : timer_peek t ≡ some root
  pub one_less : t.size ≡ result.size + 1
  pub same_times : result.expiration_time ≡ t.expiration_time
  pub holds : (x : ℕ) → timers t x ≡ timers result x + is root x
  pub least : (x : ℕ) → 0 < timers t x → t.expiration_time root ≤ t.expiration_time x

-- Taking out a timer does not shrink the array of 3000 places.
abbrev pub KeepsBlock : ℕ → Type 0
KeepsBlock size = (size ≤ 65) ⊎ (750 < size)

shrink-same :
    (kmalloc : ℕ → Outcome (ℕ → ℕ)) (t : Timers)
    → t.capacity ≡ 3000
    → KeepsBlock (t.size + 1)
    → shrink kmalloc t ≡ ok t
unfolding shrink
shrink-same kmalloc t c k =
    let off : (ltb 64 t.size && ltb (t.size * 4) t.capacity) ≡ false = ground (arith, c, k) in
    rw off refl

-- An array with timers is the first block.
first_block : (t : Timers) → IsValid t → 0 < t.size → (t.capacity ≡ 3000) × (t.size ≤ 3000)
first_block t v pos = elim v.room [ inl (c, z) ↦ absurd (omega (arith, z, pos)) | inr r ↦ r ]

root_Sinks : (e : ℕ → ℕ) (n v : ℕ) (h : ℕ → ℕ) → IsHeap e (n + 1) h → Sinks e n (update h 0 v) 0
root_Sinks e n v h o = record {
  others = λ i q k ne. grind (arith, o i q);
  around = λ i q k p up. absurd (omega arith);
}

-- The last timer takes the place of the root.
count-root :
    (n : ℕ) (h : ℕ → ℕ) (x : ℕ)
    → 0 < n
    → count (n + 1) h x ≡ count n (update h 0 (h n)) x + is (h 0) x
count-root n h x pos =
    ap (λ k. count k h x) (add-one n) ∙ omega (arith, count-update n h 0 (h n) x pos)

root_least_count :
    (e : ℕ → ℕ) (n : ℕ) (h : ℕ → ℕ) (x : ℕ) → IsHeap e n h → 0 < count n h x → e (h 0) ≤ e x
root_least_count e n h x o c =
    let (i, l, s) = count-at n h x c in omega (arith, root_least e n h i o l, ap e s)

-- A heap of two timers or more.
pop_many :
    (kmalloc : ℕ → Outcome (ℕ → ℕ)) (t : Timers) (n : ℕ)
    → IsValid t
    → KeepsBlock (n + 1)
    → t.size ≡ n + 1
    → 0 < n
    → Popped t (timer_pop kmalloc t)
unfolding timer_pop timer_peek
pop_many kmalloc t n v keeps e pos =
    let h = update t.heap 0 (t.heap n) in
    let (c, l) = first_block t v (omega (arith, e)) in
    let s = shrink-same kmalloc (record t { heap = h; size = n }) c keeps in
    let order = subst (λ k. IsHeap t.expiration_time k t.heap) e v.order in
    let m =
      min_heapify-IsHeap n t.expiration_time n 0 h (omega arith) pos
        (root_Sinks t.expiration_time n (t.heap n) t.heap order) in
    let some_left : (t.size == 0) ≡ false = ground (arith, e) in
    let not_one : (t.size == 1) ≡ false = ground (arith, e, pos) in
    let before : t.size - 1 ≡ n = omega (arith, e) in
    record {
      root = t.heap 0;
      result = record t { heap = m.0; size = n };
      runs = rw (some_left, not_one, before, s, m.1) refl;
      valid = record { order = m.2; room = inr (c, omega (arith, l, e)) };
      peeked = rw some_left refl;
      one_less = e;
      same_times = refl;
      holds = λ x.
          ap (λ k. count k t.heap x) e
          ∙ count-root n t.heap x pos
          ∙ ap (λ k. k + is (t.heap 0) x) (sym (m.3 x));
      least = λ x c. root_least_count t.expiration_time t.size t.heap x v.order c;
    }

-- The last timer.
pop_one :
    (kmalloc : ℕ → Outcome (ℕ → ℕ)) (t : Timers)
    → IsValid t
    → t.size ≡ 1
    → Popped t (timer_pop kmalloc t)
unfolding timer_pop timer_peek
pop_one kmalloc t v e = record {
  root = t.heap 0;
  result = record t { size = 0 };
  runs = rw e refl;
  valid = record {
    order = λ i q k. absurd (omega arith);
    room = inr ((first_block t v (omega (arith, e))).0, omega arith);
  };
  peeked = rw e refl;
  one_less = e;
  same_times = refl;
  holds = λ x. ap (λ k. count k t.heap x) e;
  least = λ x c. root_least_count t.expiration_time t.size t.heap x v.order c;
}

-- Popping from a heap that is not empty, with at most 65 timers or more than 750, so that the array
-- does not shrink, returns, keeps the heap order and the room in the array, and takes out exactly
-- one timer, the one that `timer_peek` shows: none expires before it.
pub timer_pop-Popped :
    (kmalloc : ℕ → Outcome (ℕ → ℕ)) (t : Timers)
    → IsValid t
    → KeepsBlock t.size
    → 0 < t.size
    → Popped t (timer_pop kmalloc t)
timer_pop-Popped kmalloc t v keeps pos = elim (Bool-cases (t.size == 1)) [
  | inl e ↦ pop_one kmalloc t v ((==_iff t.size 1).0 e)
  | inr e ↦
      let size : t.size ≡ t.size - 1 + 1 = omega (arith, pos) in
      pop_many kmalloc t (t.size - 1) v (subst KeepsBlock size keeps) size (ground (arith, pos, e))
]
