-- ===== src/FrameAlloc/Tests.antt =====
-- Runs of the buddy allocator, and the theorems at concrete states.
use munk_os.Prelude.{
  ℕ, ◌%◌, ◌^◌, ◌≡◌, inl, inr, refl, ap, ◌∙◌, arith, Bool-cases, List, [], ◌∷◌, update, ◌==◌, ok,
  Outcome, ◌>>=◌, Option, none, some, suc, ◌<◌, ◌≤◌,
}
use munk_os.FrameAlloc.Orders.{size2order, size2order-floor}
use native.Mathlib.Nat.{zero-div}
use munk_os.Bits.{digit-eq}
use munk_os.FrameAlloc.Bitmap.Laws.{status-digit}
use munk_os.Links.{node, null}
use munk_os.FrameAlloc.Freelist.{list_link, list_unlink, list_get}
use munk_os.FrameAlloc.{Buddy, split_once, buddy_alloc, buddy_free}
use munk_os.FrameAlloc.Bitmap.{bitmap_flip, bitmap_status}
use munk_os.FrameAlloc.Invariant.{IsValid, IsTaken, AreBits, flip_one}
use munk_os.FrameAlloc.Changes.{AreBits-more, OneMore-cons}
use munk_os.FrameAlloc.Allocation.{Allocated, buddy_alloc-Allocated}
use munk_os.FrameAlloc.Freeing.{Freed, buddy_free-Freed}

-- Sixteen pages, of which the block of four from page 4 on is free.
abbrev free_four : ℕ → List ℕ
free_four = update (λ o. []) 2 (4 ∷ [])

abbrev sixteen : Buddy
sixteen = record {
  links = record { next = λ n. null; prev = λ n. null };
  list = update (λ o. null) 2 (node 4);
  bitmap = update (λ o n. 0) 2 (bitmap_flip 0 (λ n. 0));
  pages_count = 16;
  free = 4;
  allocation_count = 0;
  deallocation_count = 1;
}

no_bits : AreBits (λ o n. 0) (λ o. [])
no_bits o n h =
    status-digit n (λ m. 0) ∙ digit-eq (n % 8) 0 ∙ ap (λ k. k % 2) (zero-div (2 ^ (n % 8)))

sixteen-IsValid : IsValid sixteen free_four
sixteen-IsValid = record {
  lists = record {
    tail = update (λ o. null) 2 (node 4);
    each = λ o. elim (Bool-cases (o == 2)) [
      | inl e ↦ rw e (refl, refl, refl, (refl, refl))
      | inr e ↦ rw e (refl, refl)
    ];
    disjoint = λ o p ne a i. ground arith;
  };
  inside = λ o x i.
      let p : (o ≡ 2) × (x ≡ 4) = ground arith in
      record { number = 1; starts = rw (p.0, p.1) refl; fits = rw (p.0, p.1) (omega arith) };
  separate = λ o p x y i j. ground arith;
  bits =
      AreBits-more (λ o n. 0) sixteen.bitmap (λ o. []) 2 1 (4 ∷ []) no_bits
        (flip_one (λ o n. 0) 2 1) (OneMore-cons 4 [] refl);
}

twelve-IsTaken : IsTaken 16 free_four 2 12
twelve-IsTaken = record {
  block = record { number = 3; starts = refl; fits = omega arith };
  apart = λ p y i. ground arith;
}

buddy_alloc-Allocated_example : Allocated sixteen free_four 0 (buddy_alloc sixteen 0)
buddy_alloc-Allocated_example = buddy_alloc-Allocated sixteen free_four 0 sixteen-IsValid

buddy_free-Freed_example : Freed sixteen free_four 2 12 (buddy_free sixteen 12 2)
buddy_free-Freed_example =
    buddy_free-Freed sixteen free_four 2 12 (omega arith) sixteen-IsValid twelve-IsTaken

abbrev page_of : Outcome (Option ℕ × Buddy) → Option ℕ
page_of (ok (p, b)) = p
page_of _ = none

takes_four : page_of (buddy_alloc sixteen 0) ≡ some 4
unfolding buddy_alloc list_get split_once bitmap_status list_link
takes_four = refl

too_large : page_of (buddy_alloc sixteen 3) ≡ none
unfolding buddy_alloc list_get
too_large = refl

-- The block of two pages from 4 on is split off, and merged again when it is freed.
splits_and_merges :
    page_of (do (p, b) ← buddy_alloc sixteen 1; b' ← buddy_free b 4 1; buddy_alloc b' 2) ≡ some 4
unfolding buddy_alloc buddy_free list_get split_once bitmap_status list_link bitmap_flip list_unlink
splits_and_merges = refl

size2order-floor_example : (k : ℕ) × (size2order 3 ≡ ok k) × (2 ^ k ≤ 3) × (3 < 2 ^ suc k)
size2order-floor_example = size2order-floor 3 (omega arith) (omega arith)
