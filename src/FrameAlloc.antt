-- ===== src/FrameAlloc.antt =====
-- kernel/src/mm/frame_alloc.c and kernel/include/frame_alloc.h, in the default configuration
-- MUNKOS_CONFIG_BUDDY: the buddy allocator for physical pages. A `struct page *` is the page's
-- index in the table `pages`, so `page2idx` only checks the range, and `phys2page` divides.
-- The allocator's lock is held throughout each operation and does not show between them.
pub mod Freelist
pub mod Bitmap
pub mod Blocks
pub mod Invariant
pub mod Changes
pub mod Totals
pub mod Splitting
pub mod Allocation
pub mod Buddies
pub mod Merging
pub mod Freeing
pub mod Orders
pub mod Startup
mod Tests
use munk_os.Prelude.{
  ℕ, zero, suc, ◌+◌, ◌-◌, ◌*◌, ◌/◌, ◌%◌, ◌^◌, bit_xor, Bool, true, false, not, Option, none, some,
  Outcome, ok, panic, fault, ◌>>=◌, update, ltb, leb, ◌==◌, if◌then◌else◌,
}
use munk_os.Links.{Ptr, null, node, poison, Links}
use munk_os.FrameAlloc.Freelist.{list_link, list_unlink, list_get}
use munk_os.FrameAlloc.Bitmap.{bitmap_flip, bitmap_status}

abbrev pub buddy_high_order : ℕ
buddy_high_order = 10

-- `struct buddy_context buddy_allocator` with the counters of the frame allocator: `list o` and
-- `bitmap o` are `orders[o].list` and `orders[o].bitmap`, and `links` the fields of the pages.
pub record Buddy : Type 0 where
  pub links : Links
  pub list : ℕ → Ptr
  pub bitmap : ℕ → ℕ → ℕ
  pub pages_count : ℕ
  pub free : ℕ
  pub allocation_count : ℕ
  pub deallocation_count : ℕ

-- `1 << order`
abbrev pub order2size : ℕ → ℕ
order2size order = 2 ^ order

abbrev pub inc_size : ℕ → ℕ → ℕ
inc_size n d = (n + d) % 2 ^ 64

abbrev pub dec_size : ℕ → ℕ → ℕ
dec_size n d = (n + 2 ^ 64 - d) % 2 ^ 64

unfoldable pub page2idx : Buddy → ℕ → Outcome ℕ
page2idx b page = if ltb page b.pages_count then ok page else panic

unfoldable pub order_flip_at : Buddy → ℕ → ℕ → Buddy
order_flip_at b n order = record b {
  bitmap = update b.bitmap order (bitmap_flip (n / 2 ^ (order + 1)) (b.bitmap order));
}

unfoldable pub order_status_at : Buddy → ℕ → ℕ → ℕ
order_status_at b n order = bitmap_status (n / 2 ^ (order + 1)) (b.bitmap order)

unfoldable pub get_buddy : Buddy → ℕ → ℕ → Outcome ℕ
unfolding page2idx
get_buddy b page order = do address ← page2idx b page; ok (bit_xor address (order2size order))

-- `_list_link(page, &buddy_allocator.orders[order].list)`
unfoldable pub link_at : Buddy → ℕ → ℕ → Outcome Buddy
link_at b page order = do
  (l, head) ← list_link b.links page (b.list order)
  ok (record b { links = l; list = update b.list order head })

unfoldable pub unlink_at : Buddy → ℕ → ℕ → Outcome Buddy
unlink_at b page order = do
  (l, head) ← list_unlink b.links page (b.list order)
  ok (record b { links = l; list = update b.list order head })

-- The search loop: the first order from `order` on, of `n` orders, with a free block, which is
-- taken off its list.
unfoldable pub find_free : ℕ → ℕ → Buddy → Outcome (Option (ℕ × ℕ) × Buddy)
find_free zero order b = ok (none, b)
find_free (suc n) order b = do
  (pg, l, head) ← list_get b.links (b.list order)
  let b' = record b { links = l; list = update b.list order head }
  elim pg [ none ↦ find_free n (order + 1) b' | some p ↦ ok (some (p, order), b') ]

-- One round of the split loop, from order `order + 1` to `order`.
unfoldable pub split_once : Buddy → ℕ → ℕ → Outcome Buddy
unfolding get_buddy page2idx order_status_at link_at order_flip_at
split_once b pg order = do
  buddy ← get_buddy b pg order
  idx ← page2idx b buddy
  b' ← if order_status_at b idx order == 0 then link_at b buddy order else panic
  i ← page2idx b' pg
  ok (order_flip_at b' i order)

-- The split loop, `n` rounds down to order `order`.
unfoldable pub split_down : ℕ → ℕ → ℕ → Buddy → Outcome Buddy
split_down zero order pg b = ok b
split_down (suc n) order pg b = do b' ← split_once b pg (order + n); split_down n order pg b'

found_buddy : ℕ → Option (ℕ × ℕ) → Buddy → Outcome (Option ℕ × Buddy)
found_buddy cpy_order none b = ok (none, b)
found_buddy cpy_order (some (pg, order)) b = do
  i ← page2idx b pg
  b' ← split_down (order - cpy_order) cpy_order pg (order_flip_at b i order)
  ok (
    some pg,
    record b' {
      free = dec_size b'.free (order2size cpy_order);
      allocation_count = inc_size b'.allocation_count 1;
    },
  )

-- `none` is NULL.
unfoldable pub buddy_alloc : Buddy → ℕ → Outcome (Option ℕ × Buddy)
unfolding find_free found_buddy split_down page2idx order_flip_at
buddy_alloc b order = if ltb buddy_high_order order then ok (none, b) else do
  (found, b') ← find_free (buddy_high_order + 1 - order) order b
  found_buddy order found b'

-- The merge loop, with `n = BUDDY_HIGH_ORDER - order` rounds left, and the insertion behind it,
-- which leaves the array `orders` for an order above the highest.
unfoldable pub merge_up : ℕ → ℕ → ℕ → Buddy → Outcome Buddy
unfolding page2idx order_flip_at order_status_at get_buddy unlink_at link_at
merge_up zero order page b = if ltb buddy_high_order order then fault else link_at b page order
merge_up (suc n) order page b = do
  i ← page2idx b page
  let b' = order_flip_at b i order
  elim (order_status_at b' i order == 0) [
    | false ↦ link_at b' page order
    | true ↦ do
      buddy ← get_buddy b' page order
      b'' ← unlink_at b' buddy order
      merge_up n (order + 1) (if ltb page buddy then page else buddy) b''
  ]

unfoldable pub buddy_free : Buddy → ℕ → ℕ → Outcome Buddy
unfolding merge_up page2idx
buddy_free b page order = do
  i ← page2idx b page
  b' ← if i % order2size order == 0 then merge_up (buddy_high_order - order) order page b else panic
  ok (record b' {
    free = inc_size b'.free (order2size order);
    deallocation_count = inc_size b'.deallocation_count 1;
  })
