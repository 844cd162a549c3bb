-- ===== src/FrameAlloc/Allocation.antt =====
-- `buddy_alloc` of kernel/src/mm/frame_alloc.c: it fails only when no block is large enough, and
-- what it returns is a block of its own.
use munk_os.Prelude.{
  ℕ, zero, suc, ◌+◌, ◌-◌, ◌*◌, ◌/◌, ◌^◌, ◌≤◌, ◌<◌, ◌≡◌, ◌⊎◌, inl, inr, refl, ap, sym, ◌∙◌, arith,
  true, false, List, [], ◌∷◌, mem, update, update_same, ◌==◌, ltb, ok, Outcome, ◌>>=◌, Option, none,
  some, List-cases, length, Bool-cases, ==_iff,
}
use mathlib.Core.Path.{subst}
use native.Mathlib.Nat.{pow-le-pow_right}
use munk_os.Links.{Links, Ptr, null}
use munk_os.Links.Segments.{Chain}
use munk_os.FrameAlloc.{
  Buddy, find_free, found_buddy, buddy_alloc, page2idx, split_down, order2size, inc_size, dec_size,
  order_flip_at,
}
use munk_os.FrameAlloc.Freelist.{list_get}
use munk_os.FrameAlloc.Freelist.Laws.{list_get-cons, Took}
use munk_os.FrameAlloc.Bitmap.{bitmap_flip}
use munk_os.FrameAlloc.Blocks.{Apart, pair_of, OneMore}
use munk_os.FrameAlloc.Totals.{total, total-update}
use munk_os.FrameAlloc.Invariant.{IsValid, IsTaken, flip_one, Flipped}
use munk_os.FrameAlloc.Changes.{OneMore-cons, IsValid-less, IsTaken-less, Apart-less}
use munk_os.FrameAlloc.Splitting.{split_down-Splits, page2idx-IsBlock}

-- The outcome of the search: all orders in question are empty and nothing changed, or the first
-- block of the lowest order that has one is off its list.
data Found (b : Buddy) (c : ℕ → List ℕ) (order n : ℕ) (r : Outcome (Option (ℕ × ℕ) × Buddy))
    : Type 0 where
  nowhere :
      ((o : ℕ) → order ≤ o → o < order + n → c o ≡ []) → r ≡ ok (none, b) → Found b c order n r
  at :
      (o x : ℕ) (xs : List ℕ) (k : Links) (h : Ptr)
      → order ≤ o
      → o < order + n
      → ((p : ℕ) → order ≤ p → p < o → c p ≡ [])
      → c o ≡ x ∷ xs
      → r ≡ ok (some (x, o), record b { links = k; list = update b.list o h })
      → Took b.links (c o) xs k h
      → Found b c order n r

empty_list :
    (n order : ℕ) (b : Buddy) (c : ℕ → List ℕ)
    → IsValid b c
    → c order ≡ []
    → find_free (suc n) order b ≡ find_free n (order + 1) b
unfolding find_free list_get
empty_list n order b c v e =
    let s =
      subst (λ xs. Chain b.links (b.list order) xs (v.lists.tail order)) e (v.lists.each order) in
    let same : update b.list order null ≡ b.list =
      ap (λ p. update b.list order p) (sym s.0) ∙ update_same b.list order in
    rw (s.0, same) refl

later :
    (b : Buddy) (c : ℕ → List ℕ) (order n : ℕ) (r q : Outcome (Option (ℕ × ℕ) × Buddy))
    → c order ≡ []
    → q ≡ r
    → Found b c (order + 1) n r
    → Found b c order (suc n) q
later b c order n r q e i (nowhere none_left runs) =
    nowhere
      (λ o l h. elim (Bool-cases (o == order)) [
        | inl j ↦ rw ((==_iff o order).0 j) e
        | inr j ↦ none_left o (ground (arith, j)) (omega arith)
      ])
      (i ∙ runs)
later b c order n r q e i (at o x xs k h low high none_left here runs took) =
    at o x xs k h (omega arith) (omega arith)
      (λ p l g. elim (Bool-cases (p == order)) [
        | inl j ↦ rw ((==_iff p order).0 j) e
        | inr j ↦ none_left p (ground (arith, j)) g
      ])
      here (i ∙ runs) took

find_free-Found :
    (n order : ℕ) (b : Buddy) (c : ℕ → List ℕ)
    → IsValid b c
    → Found b c order n (find_free n order b)
unfolding find_free
find_free-Found zero order b c v = nowhere (λ o l h. absurd (omega arith)) refl
find_free-Found (suc n) order b c v = elim (List-cases (c order)) [
  | inl e ↦
      later b c order n (find_free n (order + 1) b) (find_free (suc n) order b) e
        (empty_list n order b c v e) (find_free-Found n (order + 1) b c v)
  | inr s ↦
      let (x, xs, e) = s in
      let chain =
        subst (λ ys. Chain b.links (b.list order) ys (v.lists.tail order)) e (v.lists.each order) in
      let (k, h, runs, took) =
        list_get-cons b.links (b.list order) x xs (v.lists.tail order) chain in
      at order x xs k h (omega arith) (omega arith) (λ p l g. absurd (omega arith)) e (rw runs refl)
        (rw e took)
]

-- The outcome of an allocation of order `order`.
pub data Allocated (b : Buddy) (c : ℕ → List ℕ) (order : ℕ) (r : Outcome (Option ℕ × Buddy))
    : Type 0 where
  exhausted : ((o : ℕ) → order ≤ o → o ≤ 10 → c o ≡ []) → r ≡ ok (none, b) → Allocated b c order r
  allocated :
      (x : ℕ) (b' : Buddy) (c' : ℕ → List ℕ)
      → r ≡ ok (some x, b')
      → IsValid b' c'
      → IsTaken b'.pages_count c' order x
      → ((u w : ℕ) → Apart c u w → Apart c' u w × ((u + w ≤ x) ⊎ (x + 2 ^ order ≤ u)))
      → total 11 c' + 2 ^ order ≡ total 11 c
      → b'.pages_count ≡ b.pages_count
      → b'.free ≡ dec_size b.free (2 ^ order)
      → b'.allocation_count ≡ inc_size b.allocation_count 1
      → Allocated b c order r

pub IsValid-counters :
    (b : Buddy) (c : ℕ → List ℕ) (f a d : ℕ)
    → IsValid b c
    → IsValid (record b { free = f; allocation_count = a; deallocation_count = d }) c
IsValid-counters b c f a d v = record {
  lists = v.lists;
  inside = v.inside;
  separate = v.separate;
  bits = v.bits;
}

found_buddy-runs :
    (b : Buddy) (order o x : ℕ) (b' : Buddy)
    → page2idx b x ≡ ok x
    → split_down (o - order) order x (order_flip_at b x o) ≡ ok b'
    → found_buddy order (some (x, o)) b
      ≡ ok (
        some x,
        record b' {
          free = dec_size b'.free (order2size order);
          allocation_count = inc_size b'.allocation_count 1;
        },
      )
unfolding found_buddy
found_buddy-runs b order o x b' i s = rw (i, s) refl

-- A found block, its bit flipped, and split.
found_Splits :
    (b : Buddy) (c : ℕ → List ℕ) (order o x : ℕ) (xs : List ℕ) (k : Links) (h : Ptr)
    → IsValid b c
    → order ≤ o
    → o ≤ 10
    → c o ≡ x ∷ xs
    → Took b.links (c o) xs k h
    → Allocated b c order
        (found_buddy order (some (x, o)) (record b { links = k; list = update b.list o h }))
unfolding found_buddy order_flip_at
found_Splits b c order o x xs k h v low high e took =
    let here : mem x (c o) ≡ true = rw e (ground arith) in
    let t = v.inside o x here in
    let chain = subst (λ ys. Chain b.links (b.list o) ys (v.lists.tail o)) e (v.lists.each o) in
    let new : mem x xs ≡ false = chain.2 in
    let one : OneMore x xs (c o) = subst (OneMore x xs) (sym e) (OneMore-cons x xs new) in
    let bm = update b.bitmap o (bitmap_flip (x / 2 ^ (o + 1)) (b.bitmap o)) in
    let i : x / 2 ^ (o + 1) ≡ t.number / 2 =
      ap (λ y. y / 2 ^ (o + 1)) t.starts ∙ pair_of o t.number in
    let f : Flipped o t.number b.bitmap bm = rw i (flip_one b.bitmap o t.number) in
    let c1 = update c o xs in
    let v1 = IsValid-less b bm c o x xs k h v t one f took in
    let t1 = IsTaken-less b.pages_count c o x xs v.separate t one in
    let s =
      split_down-Splits (o - order) order o x
        (record b { links = k; list = update b.list o h; bitmap = bm }) c1 (omega arith) high v1
        t1 in
    let grow : 2 ^ order ≤ 2 ^ o = pow-le-pow_right (omega arith) low in
    let pages =
      subst (λ ys. total 11 c1 + 2 ^ o * length ys ≡ total 11 c + 2 ^ o * length xs) e
        (total-update 11 c o xs (omega arith)) in
    allocated x
      (record s.result {
        free = dec_size s.result.free (order2size order);
        allocation_count = inc_size s.result.allocation_count 1;
      })
      s.free
      (found_buddy-runs (record b { links = k; list = update b.list o h }) order o x s.result
        (page2idx-IsBlock (record b { links = k; list = update b.list o h }) o x t) s.runs)
      (IsValid-counters s.result s.free _ _ _ s.valid)
      (subst (λ m. IsTaken m s.free order x) (sym s.counters.0) s.taken)
      (λ u w a. (
        s.spares u w (Apart-less c u w o x xs one a) (a o x here),
        ground (arith, a o x here, grow),
      ))
      (omega (arith, s.conserves, pages)) s.counters.0
      (ap (λ (n : ℕ). dec_size n (2 ^ order)) s.counters.1)
      (ap (λ (n : ℕ). inc_size n 1) s.counters.2)

after_search :
    (b : Buddy) (c : ℕ → List ℕ) (order : ℕ) (r : Outcome (Option (ℕ × ℕ) × Buddy))
    → order ≤ 10
    → IsValid b c
    → Found b c order (11 - order) r
    → Allocated b c order (r >>= λ f. found_buddy order f.0 f.1)
unfolding found_buddy
after_search b c order r low v (nowhere none_left runs) =
    exhausted (λ o l h. none_left o l (omega arith)) (rw runs refl)
after_search b c order r low v (at o x xs k h l g none_below here runs took) =
    rw runs (found_Splits b c order o x xs k h v l (omega arith) here took)

-- From a valid state, `buddy_alloc` neither panics nor faults. It returns NULL, with nothing
-- changed, only when no block of the order or a larger one is free (so for any order above 10).
-- Else it returns an aligned block of the order that shares no page with any block then free, nor
-- with any pages that were apart from the free blocks, which still are so; the state is valid, the
-- free pages are fewer by exactly the block's, and the counters say so.
pub buddy_alloc-Allocated :
    (b : Buddy) (c : ℕ → List ℕ) (order : ℕ)
    → IsValid b c
    → Allocated b c order (buddy_alloc b order)
unfolding buddy_alloc
buddy_alloc-Allocated b c order v = elim (Bool-cases (ltb 10 order)) [
  | inl e ↦ exhausted (λ o l h. absurd (ground arith)) (rw e refl)
  | inr e ↦ rw e (
      after_search b c order (find_free (11 - order) order b) (ground arith) v
        (find_free-Found (11 - order) order b c v))
]
