-- ===== src/Slab.antt =====
-- kernel/src/mm/slab.c and kernel/include/kheap.h, without CONFIG_SLAB_SANITIZE, which the header
-- leaves off: the kernel heap. A `struct slab *` is the index of its first page in `pages`, and a
-- cache is its index in `kmalloc_generic_caches`. A page plays one role at a time, so the members
-- of the union in `struct page` are fields of their own; the buddy allocator behind `page_alloc` and
-- `page_free` has its own state. Of the memory only the words that link free objects are modelled.
-- The lock of a cache is held throughout each call and interrupts end as they began.
pub mod Caches
pub mod Sizes
pub mod Invariant
pub mod Lists
pub mod Taking
pub mod Serving
pub mod Allocating
pub mod Giving
pub mod Releasing
pub mod Kmalloc
mod Tests
use munk_os.Prelude.{
  ℕ, zero, suc, ◌+◌, ◌-◌, ◌*◌, ◌/◌, ◌%◌, ◌^◌, bit_and, Bool, true, false, not, ◌||◌, Option, none,
  some, Outcome, ok, panic, fault, out_of_fuel, ◌>>=◌, update, ltb, leb, ◌==◌, if◌then◌else◌,
}
use munk_os.Links.{Ptr, null, node, poison, Links}
use munk_os.FrameAlloc.{Buddy, buddy_alloc, buddy_free, inc_size, dec_size, order2size, page2idx}
use munk_os.FrameAlloc.Freelist.{list_link, list_unlink}
use munk_os.FrameAlloc.Orders.{size2order, psize2order}
use munk_os.FrameAlloc.Startup.{page_size}
use munk_os.Slab.Caches.{
  kmalloc_alloc_sizes, kmalloc_max_cache_size, SlabCache, Heap, size2block, with_cache,
  mark_composite_page, unmark_composite_page, Fill, full, partial, empty, link_in, unlink_from,
  move_slab,
}

-- `page_alloc`, where NULL is read at once by the caller.
abbrev pub page_alloc : Heap → ℕ → Outcome (ℕ × Heap)
page_alloc h order = do
  (page, b) ← buddy_alloc h.buddy order
  elim page [ none ↦ fault | some pg ↦ ok (pg, record h { buddy = b }) ]

abbrev pub page_free : Heap → ℕ → ℕ → Outcome Heap
page_free h page order = do b ← buddy_free h.buddy page order; ok (record h { buddy = b })

unfoldable pub slab2addr : Heap → ℕ → Outcome ℕ
slab2addr h slab = do i ← page2idx h.buddy slab; ok (i * page_size)

-- Objects `i` to `i + n - 1` from `start` on are each linked to the next.
unfoldable pub link_objs : ℕ → ℕ → ℕ → ℕ → (ℕ → ℕ) → ℕ → ℕ
link_objs zero i start size w = w
link_objs (suc n) i start size w =
    link_objs n (i + 1) start size (update w (start + i * size) (start + (i + 1) * size))

-- The free objects of a new slab whose data starts at `start`. The division faults for a cache that
-- is not set up, and without objects the last link would be written below the slab.
abbrev pub fill_slab : Heap → ℕ → ℕ → ℕ → ℕ → Outcome Heap
fill_slab h c s objs start =
    if objs == 0
    then fault
    else let size = (h.caches c).obj_md_size in
      ok (record h {
        word = update (link_objs (objs - 1) 0 start size h.word) (start + (objs - 1) * size) 0;
        freelist = update h.freelist s start;
      })

unfoldable pub new_slab : Heap → ℕ → ℕ → Outcome Heap
unfolding slab2addr mark_composite_page
new_slab h c page_count = do
  alloc_order ← size2order page_count
  (s, h1) ← page_alloc h alloc_order
  let k = h1.caches c
  objs ←
      if k.obj_md_size == 0
      then fault
      else ok (order2size alloc_order * page_size / k.obj_md_size % 2 ^ 16)
  let h2 = record h1 {
    this_cache = update h1.this_cache s c;
    slab_objs = update h1.slab_objs s objs;
    used_objs = update h1.used_objs s 0;
  }
  h3 ← if objs == k.pages_per_slab * page_size / k.obj_md_size then ok h2 else panic
  a ← slab2addr h3 s
  h4 ← fill_slab h3 c s objs (a + h3.hhdm_offset)
  h5 ← link_in h4 c full s
  let k5 = h5.caches c
  mark_composite_page (with_cache h5 c (record k5 { total_objs = inc_size k5.total_objs objs })) s
      (order2size alloc_order)

evict : Heap → ℕ → Ptr → Outcome Heap
evict h c null = fault
evict h c (node s) = do
  h1 ← unlink_from h c full s
  let k = h1.caches c
  let h2 = with_cache h1 c (record k { total_objs = dec_size k.total_objs (h1.slab_objs s) })
  h3 ← unmark_composite_page h2 s k.pages_per_slab
  order ← size2order k.pages_per_slab
  page_free h3 s order
evict h c poison = fault

unfoldable pub attempt_free_full : Heap → ℕ → Outcome Heap
unfolding evict unmark_composite_page
attempt_free_full h c = do
  let k = h.caches c
  kept ← size2block k.obj_md_size
  if ltb (kept + 1) k.full_slab_count then evict h c k.full_slabs else ok h

-- The first free object of a slab is taken, and counted in the slab and in its cache.
unfoldable pub take_object : Heap → ℕ → ℕ × Heap
take_object h s =
    let c = h.this_cache s in
    let k = h.caches c in
    let h' = record h {
      freelist = update h.freelist s (h.word (h.freelist s));
      used_objs = update h.used_objs s ((h.used_objs s + 1) % 2 ^ 16);
    } in
    (
      h.freelist s,
      with_cache h' c (record k { total_objs_allocated = inc_size k.total_objs_allocated 1 }),
    )

-- From the partly used slab `s`; reading through a NULL freelist is caught before.
unfoldable pub from_partial : Heap → ℕ → ℕ → Outcome (ℕ × Heap)
unfolding take_object
from_partial h c s =
    if h.freelist s == 0
    then panic
    else let (ret, h') = take_object h s in
      if h'.used_objs s == h'.slab_objs s
      then if h'.freelist s == 0
        then (do h'' ← move_slab h' c partial empty s; ok (ret, h''))
        else panic
      else ok (ret, h')

-- From the full slab `s`.
unfoldable pub from_full : Heap → ℕ → ℕ → Outcome (ℕ × Heap)
unfolding take_object
from_full h c s = do
  h' ← move_slab h c full partial s
  if h'.freelist s == 0 then fault else ok (take_object h' s)

-- From the label `got_full` on; the jump back to it is one unit of fuel.
unfoldable pub got_full : ℕ → Heap → ℕ → Ptr → Outcome (ℕ × Heap)
unfolding from_full new_slab
got_full fuel h c poison = fault
got_full fuel h c (node s) = from_full h c s
got_full zero h c null = out_of_fuel
got_full (suc fuel) h c null = do
  h' ← new_slab h c ((h.caches c).pages_per_slab)
  got_full fuel h' c ((h'.caches c).full_slabs)

abbrev pub alloc_at : Heap → ℕ → Ptr → Outcome (ℕ × Heap)
alloc_at h c null = got_full 1 h c ((h.caches c).full_slabs)
alloc_at h c (node s) = from_partial h c s
alloc_at h c poison = fault

unfoldable pub cache_alloc : Heap → ℕ → Outcome (ℕ × Heap)
unfolding from_partial got_full
cache_alloc h c = alloc_at h c ((h.caches c).partial_slabs)

-- `phys2page((uintptr_t)addr - hhdm->offset)`
abbrev pub page_at : Heap → ℕ → ℕ
page_at h addr = (addr + 2 ^ 64 - h.hhdm_offset) % 2 ^ 64 / page_size

unfoldable pub find_corresponding_slab : Heap → ℕ → Outcome ℕ
find_corresponding_slab h addr =
    let this = page_at h addr in
    if h.composite_head this
    then ok this
    else if h.composite_tail this
    then ok (h.comp_head this)
    else panic

-- The address is 0 for NULL.
unfoldable pub kmalloc : Heap → ℕ → Outcome (ℕ × Heap)
kmalloc h size =
    if ltb kmalloc_max_cache_size size
    then (do
      order ← psize2order size
      (ret, h') ← page_alloc h order
      i ← page2idx h'.buddy ret
      ok (
        h'.hhdm_offset + i * page_size,
        record h' {
          kmalloc_buddy = update h'.kmalloc_buddy ret true;
          order = update h'.order ret order;
        },
      ))
    else if size == 0
    then ok (0, h)
    else if h.slab_initialized
    then (do i ← size2block size; if ltb i kmalloc_alloc_sizes then cache_alloc h i else panic)
    else panic

-- The object is put in front of the free objects of its slab.
abbrev pub give_back : Heap → ℕ → ℕ → Heap
give_back h s addr = record h {
  word = update h.word addr (h.freelist s);
  freelist = update h.freelist s addr;
}

-- A slab that had no free object is now partly used; one whose last object comes back is full of
-- free objects, and then a slab may be given up.
unfoldable pub settle : Heap → ℕ → ℕ → Outcome Heap
unfolding attempt_free_full
settle h c s =
    if h.used_objs s == h.slab_objs s
    then move_slab h c empty partial s
    else if h.used_objs s == 1
    then (do h' ← move_slab h c partial full s; attempt_free_full h' c)
    else ok h

unfoldable pub free_object : Heap → ℕ → ℕ → Outcome Heap
unfolding settle
free_object h s addr = do
  let c = h.this_cache s
  h' ← settle (give_back h s addr) c s
  let k = h'.caches c
  ok (
      with_cache
        (record h' { used_objs = update h'.used_objs s ((h'.used_objs s + 2 ^ 16 - 1) % 2 ^ 16) }) c
        (record k { total_objs_allocated = dec_size k.total_objs_allocated 1 }))

unfoldable pub kfree : Heap → ℕ → Outcome Heap
unfolding free_object find_corresponding_slab
kfree h addr =
    if addr == 0
    then ok h
    else let pg = page_at h addr in
      if h.kmalloc_buddy pg
      then page_free
          (record h {
            kmalloc_buddy = update h.kmalloc_buddy pg false;
            order = update h.order pg 0;
          })
          pg (h.order pg)
      else (do s ← find_corresponding_slab h addr; free_object h s addr)
