-- ===== src/FrameAlloc/Startup/Tests.antt =====
-- A run of `buddy_init`, and its theorem at that memory map.
use native.Mathlib.Nat.{zero-div}
use munk_os.Bits.{digit-eq}
use munk_os.Prelude.{
  ℕ, ◌%◌, ◌^◌, ◌≡◌, refl, ap, ◌∙◌, arith, true, false, List, [], ◌∷◌, Outcome, ok, ◌>>=◌, Option,
  none, some,
}
use munk_os.Links.{null}
use munk_os.FrameAlloc.{Buddy, buddy_alloc, split_once}
use munk_os.FrameAlloc.Freelist.{list_link, list_get}
use munk_os.FrameAlloc.Bitmap.{bitmap_flip, bitmap_status}
use munk_os.FrameAlloc.Bitmap.Laws.{status-digit}
use munk_os.FrameAlloc.Startup.{
  Region, alignment_loop, get_alignment_order, slice_loop, slice_range, free_range, free_regions,
  flip_list, flip_orders, buddy_init,
}
use munk_os.FrameAlloc.Startup.Memory.{AreRegions, usable, skipped, no_more}
use munk_os.FrameAlloc.Startup.Initial.{IsCleared, Initialised, buddy_init-Initialised}

abbrev cleared : Buddy
cleared = record {
  links = record { next = λ n. null; prev = λ n. null };
  list = λ o. null;
  bitmap = λ o n. 0;
  pages_count = 16;
  free = 0;
  allocation_count = 0;
  deallocation_count = 0;
}

-- Pages 1 to 6 are usable, pages 7 to 9 are not, and pages 10 to 15 are.
abbrev memory_map : List Region
memory_map =
    record { start = 4096; length = 24576; usable = true }
    ∷ record { start = 28672; length = 12288; usable = false }
    ∷ record { start = 40960; length = 24576; usable = true }
    ∷ []

cleared-IsCleared : IsCleared cleared
cleared-IsCleared = record {
  no_block = λ o. refl;
  no_bit = λ o n.
      status-digit n (λ m. 0) ∙ digit-eq (n % 8) 0 ∙ ap (λ k. k % 2) (zero-div (2 ^ (n % 8)));
}

memory_map-AreRegions : AreRegions 16 0 memory_map
memory_map-AreRegions =
    usable 1 7 refl refl refl (omega arith) (omega arith) (omega arith) (omega arith) (
      skipped refl (
        usable 10 16 refl refl refl (omega arith) (omega arith) (omega arith) (omega arith)
          no_more))

buddy_init-Initialised_example : Initialised cleared memory_map (buddy_init 17 memory_map cleared)
buddy_init-Initialised_example =
    buddy_init-Initialised 17 memory_map cleared (omega arith) memory_map-AreRegions
      cleared-IsCleared

abbrev page_of : Outcome (Option ℕ × Buddy) → Option ℕ
page_of (ok (p, b)) = p
page_of _ = none

-- The first block of four pages is the one at page 12.
init_then_alloc : page_of (do b ← buddy_init 17 memory_map cleared; buddy_alloc b 2) ≡ some 12
unfolding buddy_init free_regions free_range slice_range get_alignment_order alignment_loop
    slice_loop flip_orders flip_list buddy_alloc list_get list_link bitmap_status bitmap_flip
    split_once
init_then_alloc = refl
