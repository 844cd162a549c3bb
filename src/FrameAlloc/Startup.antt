-- ===== src/FrameAlloc/Startup.antt =====
-- `buddy_init` of kernel/src/mm/frame_alloc.c, from where it adds the usable memory on: the lists are
-- empty and the bitmaps are cleared then. Addresses wrap at 2 ^ 64. The loop over a region and the
-- walk along a list run on fuel.
pub mod Slices
pub mod Regions
pub mod Memory
pub mod Bits
pub mod Initial
mod Tests
use munk_os.Prelude.{
  ℕ, zero, suc, ◌+◌, ◌-◌, ◌*◌, ◌/◌, ◌%◌, ◌^◌, Bool, List, [], ◌∷◌, Outcome, ok, fault, out_of_fuel,
  ◌>>=◌, ltb, ◌==◌, if◌then◌else◌,
}
use munk_os.Links.{Ptr, null, node, poison}
use munk_os.FrameAlloc.{Buddy, buddy_high_order, order2size, page2idx, order_flip_at, link_at}

abbrev pub page_size : ℕ
page_size = 4096

-- `struct memmap_entry`, with whether its type is LIMINE_MEMMAP_USABLE.
pub record Region : Type 0 where
  pub start : ℕ
  pub length : ℕ
  pub usable : Bool

-- The loop of `get_alignment_order`, with `n = BUDDY_HIGH_ORDER - order`.
unfoldable pub alignment_loop : ℕ → ℕ → ℕ → ℕ
alignment_loop zero order address = order
alignment_loop (suc n) order address =
    let rest = alignment_loop n (order + 1) (address / 2) in
    if address % 2 == 0 then rest else order

unfoldable pub get_alignment_order : ℕ → ℕ
get_alignment_order address = alignment_loop buddy_high_order 0 (address / page_size)

-- The loop of `_slice_range`, with `n = BUDDY_HIGH_ORDER - order`.
unfoldable pub slice_loop : ℕ → ℕ → ℕ → ℕ
slice_loop zero order size = order
slice_loop (suc n) order size =
    let rest = slice_loop n (order + 1) (size / 2) in if size / 2 == 0 then order else rest

abbrev pub min : ℕ → ℕ → ℕ
min a b = if ltb a b then a else b

-- `_slice_range`
unfoldable pub slice_range : ℕ → ℕ → ℕ
slice_range low high =
    let limit = (low + order2size (get_alignment_order low) * page_size) % 2 ^ 64 in
    slice_loop buddy_high_order 0 ((min high limit + 2 ^ 64 - low) % 2 ^ 64 / page_size)

-- The loop over one usable entry.
unfoldable pub free_range : ℕ → ℕ → ℕ → Buddy → Outcome Buddy
free_range zero current end b = out_of_fuel
free_range (suc fuel) current end b =
    if ltb current end
    then (do
      let order = slice_range current end
      b' ← link_at b (current / page_size) order
      free_range fuel ((current + order2size order * page_size) % 2 ^ 64) end b')
    else ok b

-- The loop over the entries.
unfoldable pub free_regions : ℕ → List Region → Buddy → Outcome Buddy
free_regions fuel [] b = ok b
free_regions fuel (r ∷ regions) b = do
  b' ← if r.usable then free_range fuel r.start ((r.start + r.length) % 2 ^ 64) b else ok b
  free_regions fuel regions b'

-- The walk along one freelist, which flips the bit of each block.
unfoldable pub flip_list : ℕ → Ptr → ℕ → Buddy → Outcome Buddy
flip_list zero curr order b = out_of_fuel
flip_list (suc fuel) null order b = ok b
flip_list (suc fuel) (node curr) order b = do
  i ← page2idx b curr
  flip_list fuel (b.links.next curr) order (order_flip_at b i order)
flip_list (suc fuel) poison order b = fault

-- The walks of the orders `i` to `i + n - 1`.
unfoldable pub flip_orders : ℕ → ℕ → ℕ → Buddy → Outcome Buddy
flip_orders fuel zero i b = ok b
flip_orders fuel (suc n) i b = do b' ← flip_list fuel (b.list i) i b; flip_orders fuel n (i + 1) b'

unfoldable pub buddy_init : ℕ → List Region → Buddy → Outcome Buddy
buddy_init fuel regions b = do
  b' ← free_regions fuel regions b
  flip_orders fuel (buddy_high_order + 1) 0 b'
