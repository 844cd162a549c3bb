-- ===== src/Slab/Caches.antt =====
-- The state of the kernel heap of kernel/src/mm/slab.c, its caches and how they are set up, the marks
-- on the pages of a slab, and the lists of slabs of a cache.
use munk_os.Prelude.{
  ℕ, zero, suc, ◌+◌, ◌-◌, ◌*◌, ◌/◌, ◌%◌, ◌^◌, bit_and, Bool, true, false, not, ◌||◌, Outcome, ok,
  panic, out_of_fuel, ◌>>=◌, update, ltb, ◌==◌, if◌then◌else◌,
}
use munk_os.Links.{Ptr, null, Links}
use munk_os.FrameAlloc.{Buddy, inc_size, dec_size, page2idx}
use munk_os.FrameAlloc.Freelist.{list_link, list_unlink}
use munk_os.FrameAlloc.Orders.{size2order}
use munk_os.FrameAlloc.Startup.{page_size}

abbrev pub kmalloc_alloc_sizes : ℕ
kmalloc_alloc_sizes = 10

abbrev pub kmalloc_max_cache_size : ℕ
kmalloc_max_cache_size = page_size * 2

abbrev pub kmalloc_pps_mappings : ℕ → ℕ
kmalloc_pps_mappings i =
    if ltb i 4 then 1 else if i == 4 then 2 else if i == 5 then 4 else if ltb i 8 then 8 else 16

-- `named` says whether the cache has been given a name.
pub record SlabCache : Type 0 where
  pub named : Bool
  pub pages_per_slab : ℕ
  pub obj_size : ℕ
  pub obj_md_size : ℕ
  pub total_objs : ℕ
  pub total_objs_allocated : ℕ
  pub full_slab_count : ℕ
  pub partial_slab_count : ℕ
  pub empty_slab_count : ℕ
  pub full_slabs : Ptr
  pub partial_slabs : Ptr
  pub empty_slabs : Ptr

pub record Heap : Type 0 where
  -- of a slab
  pub links : Links
  pub this_cache : ℕ → ℕ
  -- the address of the first free object, 0 for NULL
  pub freelist : ℕ → ℕ
  pub used_objs : ℕ → ℕ
  pub slab_objs : ℕ → ℕ
  -- of a page: its flags, the head of its composite page, and its order
  pub composite_tail : ℕ → Bool
  pub composite_head : ℕ → Bool
  pub kmalloc_buddy : ℕ → Bool
  pub comp_head : ℕ → ℕ
  pub order : ℕ → ℕ
  -- the word at an address
  pub word : ℕ → ℕ
  pub caches : ℕ → SlabCache
  pub slab_initialized : Bool
  pub hhdm_offset : ℕ
  pub buddy : Buddy

-- The loop of `_size2block`.
unfoldable pub blocks : ℕ → ℕ → ℕ → Outcome ℕ
blocks zero order size = out_of_fuel
blocks (suc fuel) order size =
    let rest = blocks fuel (order + 1) (size / 2) in if size / 2 == 0 then ok order else rest

unfoldable pub size2block : ℕ → Outcome ℕ
unfolding blocks
size2block size = if size == 0 then panic else blocks 65 0 ((size - 1) / 2 ^ 3)

abbrev pub with_cache : Heap → ℕ → SlabCache → Heap
with_cache h c k = record h { caches = update h.caches c k }

-- The pages from `i + n` down to `i + 1`.
unfoldable pub mark_tails : ℕ → ℕ → Heap → Outcome Heap
mark_tails zero i h = ok h
mark_tails (suc n) i h =
    if h.composite_tail (i + suc n)
    then panic
    else mark_tails n i (record h {
      composite_tail = update h.composite_tail (i + suc n) true;
      comp_head = update h.comp_head (i + suc n) i;
    })

unfoldable pub mark_composite_page : Heap → ℕ → ℕ → Outcome Heap
unfolding mark_tails
mark_composite_page h head num_pgs = if num_pgs == 0 || h.composite_head head then panic else do
  i ← page2idx h.buddy head
  mark_tails (num_pgs - 1) i (record h { composite_head = update h.composite_head head true })

unfoldable pub unmark_tails : ℕ → ℕ → Heap → Outcome Heap
unmark_tails zero i h = ok h
unmark_tails (suc n) i h =
    if h.composite_tail (i + suc n)
    then unmark_tails n i (record h { composite_tail = update h.composite_tail (i + suc n) false })
    else panic

-- With no pages at all the counter would run down from its largest value.
unfoldable pub unmark_composite_page : Heap → ℕ → ℕ → Outcome Heap
unfolding unmark_tails
unmark_composite_page h head num_pgs = do
  i ← page2idx h.buddy head
  unmark_tails ((num_pgs + 2 ^ 64 - 1) % 2 ^ 64) i
      (record h { composite_head = update h.composite_head head false })

unfoldable pub init_slab_cache : Heap → ℕ → ℕ → Outcome Heap
init_slab_cache h c alloc_size =
    if (h.caches c).named
    then panic
    else if not (bit_and alloc_size ((alloc_size + 2 ^ 64 - 1) % 2 ^ 64) == 0)
        || (ltb alloc_size 16 || ltb 8192 alloc_size)
    then panic
    else do
      i ← size2order (alloc_size / 2 ^ 5)
      ok (
          with_cache h c (record {
            named = true;
            pages_per_slab = kmalloc_pps_mappings i;
            obj_size = alloc_size;
            obj_md_size = alloc_size;
            total_objs = 0;
            total_objs_allocated = 0;
            full_slab_count = 0;
            partial_slab_count = 0;
            empty_slab_count = 0;
            full_slabs = null;
            partial_slabs = null;
            empty_slabs = null;
          }))

-- The caches from `i` on, `n` of them.
unfoldable pub init_caches : ℕ → ℕ → Heap → Outcome Heap
unfolding init_slab_cache
init_caches zero i h = ok h
init_caches (suc n) i h = do h' ← init_slab_cache h i (2 ^ (i + 4)); init_caches n (i + 1) h'

unfoldable pub slab_init : Heap → Outcome Heap
unfolding init_caches
slab_init h = do
  h' ← init_caches kmalloc_alloc_sizes 0 h
  ok (record h' { slab_initialized = true })

-- The lists of a cache: full of free objects, partly used, and without a free object.
pub data Fill : Type 0 where
  full partial empty : Fill

abbrev pub slabs_of : SlabCache → Fill → Ptr
slabs_of k full = k.full_slabs
slabs_of k partial = k.partial_slabs
slabs_of k empty = k.empty_slabs

abbrev pub count_of : SlabCache → Fill → ℕ
count_of k full = k.full_slab_count
count_of k partial = k.partial_slab_count
count_of k empty = k.empty_slab_count

abbrev pub set_slabs : SlabCache → Fill → Ptr → ℕ → SlabCache
set_slabs k full p n = record k { full_slabs = p; full_slab_count = n }
set_slabs k partial p n = record k { partial_slabs = p; partial_slab_count = n }
set_slabs k empty p n = record k { empty_slabs = p; empty_slab_count = n }

-- `_list_link` on a list of cache `c`, and its count.
abbrev pub link_in : Heap → ℕ → Fill → ℕ → Outcome Heap
link_in h c f s = do
  (l, head) ← list_link h.links s (slabs_of (h.caches c) f)
  ok (
      with_cache (record h { links = l }) c
        (set_slabs (h.caches c) f head (inc_size (count_of (h.caches c) f) 1)))

-- `_list_unlink` on a list of cache `c`, and its count.
abbrev pub unlink_from : Heap → ℕ → Fill → ℕ → Outcome Heap
unlink_from h c f s = do
  (l, head) ← list_unlink h.links s (slabs_of (h.caches c) f)
  ok (
      with_cache (record h { links = l }) c
        (set_slabs (h.caches c) f head (dec_size (count_of (h.caches c) f) 1)))

-- A slab goes from one list of its cache to another.
unfoldable pub move_slab : Heap → ℕ → Fill → Fill → ℕ → Outcome Heap
move_slab h c from to s = do h' ← unlink_from h c from s; link_in h' c to s
