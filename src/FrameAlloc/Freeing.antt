-- ===== src/FrameAlloc/Freeing.antt =====
-- `buddy_free` of kernel/src/mm/frame_alloc.c: it merges a block with its free buddies and puts the
-- result on its freelist.
use munk_os.Prelude.{
  ℕ, ◌+◌, ◌-◌, ◌%◌, ◌^◌, ◌≤◌, ◌<◌, ◌≡◌, ◌⊎◌, refl, ap, ◌∙◌, arith, List, ok, Outcome,
}
use native.Mathlib.Nat.{mul-mod_left}
use munk_os.FrameAlloc.{Buddy, buddy_free, order2size, inc_size}
use munk_os.FrameAlloc.Blocks.{Apart}
use munk_os.FrameAlloc.Totals.{total}
use munk_os.FrameAlloc.Invariant.{IsValid, IsTaken}
use munk_os.FrameAlloc.Allocation.{IsValid-counters}
use munk_os.FrameAlloc.Splitting.{page2idx-IsBlock}
use munk_os.FrameAlloc.Merging.{merge_up-Merged}

-- The outcome of freeing a block of order `order` at `x`.
pub record Freed (b : Buddy) (c : ℕ → List ℕ) (order x : ℕ) (r : Outcome Buddy) : Type 0 where
  pub result : Buddy
  pub free : ℕ → List ℕ
  pub runs : r ≡ ok result
  pub valid : IsValid result free
  pub spares : (u w : ℕ) → 0 < w → Apart c u w → (u + w ≤ x) ⊎ (x + 2 ^ order ≤ u) → Apart free u w
  pub conserves : total 11 free ≡ total 11 c + 2 ^ order
  pub same_table : result.pages_count ≡ b.pages_count
  pub counted : result.free ≡ inc_size b.free (2 ^ order)
  pub frees : result.deallocation_count ≡ inc_size b.deallocation_count 1

-- Freeing a block that is in range, aligned to its order (at most 10) and shares no page with a free
-- block neither panics nor faults. The state is valid again, the free pages are more by exactly the
-- block's, pages apart from it and from the free blocks stay so, and the counters say so.
pub buddy_free-Freed :
    (b : Buddy) (c : ℕ → List ℕ) (order x : ℕ)
    → order ≤ 10
    → IsValid b c
    → IsTaken b.pages_count c order x
    → Freed b c order x (buddy_free b x order)
unfolding buddy_free
buddy_free-Freed b c order x low v t =
    let m = merge_up-Merged (10 - order) order x b c (omega (arith, low)) v t in
    let aligned : x % 2 ^ order ≡ 0 =
      ap (λ k. k % 2 ^ order) t.block.starts ∙ mul-mod_left t.block.number (2 ^ order) in
    record {
      result = record m.result {
        free = inc_size m.result.free (order2size order);
        deallocation_count = inc_size m.result.deallocation_count 1;
      };
      free = m.free;
      runs = rw (page2idx-IsBlock b order x t.block, aligned, m.runs) refl;
      valid = IsValid-counters m.result m.free _ _ _ m.valid;
      spares = m.spares;
      conserves = m.conserves;
      same_table = m.counters.0;
      counted = ap (λ n. inc_size n (2 ^ order)) m.counters.1;
      frees = ap (λ n. inc_size n 1) m.counters.3;
    }
