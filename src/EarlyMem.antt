-- ===== src/EarlyMem.antt =====
-- kernel/src/mm/mem_init.c: memory before the frame allocator runs, cut from the front of the usable
-- regions of the memory map that the boot loader hands over. The map and the offset of the higher
-- half are the boot loader's, and arguments; so is the size of `struct page`, which the compiler
-- fixes. The contents of the memory are not modelled.
pub mod Carving
pub mod Closing
mod Tests
use munk_os.Prelude.{
  ℕ, zero, suc, ◌+◌, ◌-◌, ◌*◌, ◌/◌, ◌%◌, ◌^◌, Bool, true, false, ◌&&◌, not, List, [], ◌∷◌, length,
  Option, none, some, Outcome, ok, panic, fault, ◌>>=◌, update, ltb, leb, ◌==◌, if◌then◌else◌,
}
use munk_os.FrameAlloc.Startup.{Region, page_size}

abbrev pub early_mem_max_allocations : ℕ
early_mem_max_allocations = 256

-- `early_mem_mappings[i]` is a start and a length.
pub record EarlyMem : Type 0 where
  pub mappings : ℕ → ℕ × ℕ
  pub allocations : ℕ
  pub memmap : List Region
  pub hhdm_offset : ℕ
  pub total_pages : ℕ
  pub total_pages_usable : ℕ
  pub bytes_allocated : ℕ
  pub is_initialized : Bool

abbrev pub with_first : Region → Option (ℕ × List Region) → Option (ℕ × List Region)
with_first r none = none
with_first r (some (start, regions)) = some (start, r ∷ regions)

abbrev pub cut_front : Region → ℕ → Region
cut_front r size = record r { start = (r.start + size) % 2 ^ 64; length = r.length - size }

-- The loop of `early_mem_alloc`: where the memory starts, and the map without it.
unfoldable pub first_fit : ℕ → List Region → Option (ℕ × List Region)
first_fit size [] = none
first_fit size (r ∷ regions) =
    if r.usable && leb size r.length
    then some (r.start, cut_front r size ∷ regions)
    else with_first r (first_fit size regions)

-- A mapping is recorded; the array has no room for one more than its size.
abbrev pub record_mapping : EarlyMem → ℕ → Option (ℕ × List Region) → Outcome (ℕ × EarlyMem)
record_mapping m size none = panic
record_mapping m size (some (start, regions)) =
    if leb early_mem_max_allocations m.allocations
    then fault
    else ok (
      (start + m.hhdm_offset) % 2 ^ 64,
      record m {
        mappings = update m.mappings m.allocations (start, size);
        allocations = m.allocations + 1;
        memmap = regions;
        bytes_allocated = (m.bytes_allocated + size) % 2 ^ 64;
      },
    )

-- The address of the memory in the higher half.
unfoldable pub early_mem_alloc : EarlyMem → ℕ → Outcome (ℕ × EarlyMem)
unfolding first_fit
early_mem_alloc m size =
    if not m.is_initialized
    then panic
    else if ltb early_mem_max_allocations m.allocations
    then panic
    else record_mapping m size (first_fit size m.memmap)

-- The first usable entry with room for the copy of the map.
unfoldable pub find_place : ℕ → List Region → Option ℕ
find_place space [] = none
find_place space (ent ∷ entries) =
    if ent.usable && leb space ent.length then some ent.start else find_place space entries

-- `sizeof(struct memmap_entry)`
abbrev pub entry_size : ℕ
entry_size = 24

abbrev pub max : ℕ → ℕ → ℕ
max a b = if ltb b a then a else b

-- The highest address of the entries and `high`.
unfoldable pub highest : ℕ → List Region → ℕ
highest high [] = high
highest high (ent ∷ entries) = highest (max high ((ent.start + ent.length) % 2 ^ 64)) entries

-- The bytes of the usable entries.
unfoldable pub usable_bytes : List Region → ℕ
usable_bytes [] = 0
usable_bytes (ent ∷ entries) = (if ent.usable then ent.length else 0) + usable_bytes entries

-- The copied entries: `space` bytes are cut out of the entry that holds the copy.
unfoldable pub copy_entries : ℕ → ℕ → List Region → List Region
copy_entries place space [] = []
copy_entries place space (ent ∷ entries) =
    (if ent.start == place
      then record ent {
        start = (ent.start + space) % 2 ^ 64;
        length = (ent.length + 2 ^ 64 - space) % 2 ^ 64;
      }
      else ent)
    ∷ copy_entries place space entries

-- With the table `pages` allocated; `sizeof_page` is `sizeof(struct page)`.
init_at : ℕ → List Region → EarlyMem → ℕ → Option ℕ → Outcome (ℕ × EarlyMem)
init_at sizeof_page entries m space none = fault
init_at sizeof_page entries m space (some place) = do
  let total = highest 0 entries / page_size
  (_, m') ←
      early_mem_alloc
        (record m {
          memmap = copy_entries place space entries;
          total_pages = total;
          total_pages_usable = usable_bytes entries % 2 ^ 64 / page_size;
          bytes_allocated = (m.bytes_allocated + space) % 2 ^ 64;
          is_initialized = true;
        })
        (total * sizeof_page % 2 ^ 64)
  ok (total, m')

-- The boot loader's answers: the entries of the memory map and the offset, if both requests were
-- answered. Without a place, the copy goes through NULL. It returns the pages up to the highest
-- address.
unfoldable pub early_mem_init : ℕ → Option (List Region × ℕ) → EarlyMem → Outcome (ℕ × EarlyMem)
unfolding init_at early_mem_alloc find_place highest usable_bytes copy_entries
early_mem_init sizeof_page none m = panic
early_mem_init sizeof_page (some (entries, offset)) m =
    let space = length entries * entry_size in
    init_at sizeof_page entries (record m { hhdm_offset = offset }) space (find_place space entries)

-- `ALIGN_UP(start, PAGE_SIZE) - start`
abbrev pub page_cut : ℕ → ℕ
page_cut start =
    ((start + page_size - 1) % 2 ^ 64 / page_size * page_size + 2 ^ 64 - start) % 2 ^ 64

abbrev pub close_region : Region → Region
close_region r = record r {
  start = (r.start + page_cut r.start) % 2 ^ 64;
  length = (r.length + 2 ^ 64 - page_cut r.start) % 2 ^ 64;
}

-- The loop of `early_mem_exit`: the map, and the bytes that are cut off.
unfoldable pub close_regions : List Region → List Region × ℕ
close_regions [] = ([], 0)
close_regions (r ∷ regions) =
    let (rest, cut) = close_regions regions in
    if r.usable then (close_region r ∷ rest, page_cut r.start + cut) else (r ∷ rest, cut)

unfoldable pub early_mem_exit : EarlyMem → Outcome (ℕ × EarlyMem)
unfolding close_regions
early_mem_exit m =
    if not m.is_initialized
    then panic
    else let (regions, cut) = close_regions m.memmap in
      let bytes = (m.bytes_allocated + cut) % 2 ^ 64 in
      if bytes % page_size == 0
      then ok (
        bytes,
        record m {
          memmap = regions;
          bytes_allocated = bytes;
          total_pages_usable = (m.total_pages_usable + 2 ^ 64 - bytes / page_size) % 2 ^ 64;
        },
      )
      else panic

-- The usable and the free pages.
unfoldable pub early_mem_statistics : EarlyMem → Outcome (ℕ × ℕ)
early_mem_statistics m =
    if not m.is_initialized
    then panic
    else ok (
      m.total_pages_usable,
      (m.total_pages_usable + 2 ^ 64 - m.bytes_allocated / page_size) % 2 ^ 64,
    )
