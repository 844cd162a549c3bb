-- ===== src/EarlyMem/Closing.antt =====
-- `early_mem_exit` of kernel/src/mm/mem_init.c: the memory map that the frame allocator starts from.
use munk_os.Prelude.{
  ℕ, ◌+◌, ◌-◌, ◌*◌, ◌/◌, ◌%◌, ◌^◌, ◌≤◌, ◌<◌, ◌≡◌, refl, sym, arith, true, false, List, [], ◌∷◌,
  Outcome, ok,
}
use mathlib.Core.Path.{subst}
use munk_os.FrameAlloc.Startup.{Region}
use munk_os.FrameAlloc.Startup.Memory.{AreRegions, usable_pages}
use munk_os.FrameAlloc.Startup.Memory as Memory
use munk_os.EarlyMem.{EarlyMem, page_cut, close_region, close_regions, early_mem_exit, usable_bytes}
use munk_os.EarlyMem.Carving
use munk_os.EarlyMem.Carving.{AreCarved, IsValid}

-- Rounding up cuts off less than a page and ends at a page boundary.
page_cut-lt :
    (start : ℕ)
    → start < 2 ^ 63
    → (p : ℕ) × (start + page_cut start ≡ p * 4096) × (page_cut start < 4096)
page_cut-lt start h = ((start + 4095) / 4096, omega (arith, h), omega (arith, h))

-- The closed map and what is cut off.
record Closed (count f : ℕ) (before : List Region) (r : List Region × ℕ) : Type 0 where
  regions : AreRegions count f r.0
  conserves : usable_bytes before ≡ usable_bytes r.0 + r.1
  whole : usable_bytes r.0 ≡ usable_pages r.0 * 4096

closes :
    (r : Region) (regions : List Region)
    → r.usable ≡ true
    → close_regions (r ∷ regions)
      ≡ (close_region r ∷ (close_regions regions).0, page_cut r.start + (close_regions regions).1)
unfolding close_regions
closes r regions e = cc

passes :
    (r : Region) (regions : List Region)
    → r.usable ≡ false
    → close_regions (r ∷ regions) ≡ (r ∷ (close_regions regions).0, (close_regions regions).1)
unfolding close_regions
passes r regions e = cc

close_regions-Closed :
    (count f : ℕ) (regions : List Region)
    → AreCarved count f regions
    → Closed count f regions (close_regions regions)
unfolding usable_bytes
close_regions-Closed count f [] Carving.no_more =
    unfold close_regions in record { regions = Memory.no_more; conserves = refl; whole = refl }
close_regions-Closed count f (r ∷ regions) (Carving.skipped u v) =
    let k = close_regions-Closed count f regions v in
    subst (Closed count f (r ∷ regions)) (sym (passes r regions u)) (record {
      regions = Memory.skipped u k.regions;
      conserves = ground (arith, u, k.conserves);
      whole = ground (arith, u, k.whole);
    })
close_regions-Closed count f (r ∷ regions) (Carving.usable e u s t c b v) =
    let k = close_regions-Closed count e regions v in
    let (p, up, less) = page_cut-lt r.start (omega (arith, t, b)) in
    let fits : page_cut r.start ≤ r.length = omega (arith, up, less, t) in
    let start : (r.start + page_cut r.start) % 2 ^ 64 ≡ p * 4096 = omega (arith, up, less, t, b) in
    let size : (r.length + 2 ^ 64 - page_cut r.start) % 2 ^ 64 ≡ r.length - page_cut r.start =
      omega (arith, fits, t, b) in
    let end : (r.start + page_cut r.start) % 2 ^ 64
          + (r.length + 2 ^ 64 - page_cut r.start) % 2 ^ 64
        ≡ e * 4096 =
      omega (arith, start, size, up, fits, t) in
    subst (Closed count f (r ∷ regions)) (sym (closes r regions u)) (record {
      regions =
          Memory.usable p e u start end (omega (arith, s, up)) (omega (arith, up, fits, t)) c b
            k.regions;
      conserves = ground (arith, u, size, fits, k.conserves);
      whole =
          ground
            (arith, u, k.whole, size, whole_pages r.length (page_cut r.start) r.start p e up t);
    })
  where
    whole_pages :
        (length cut start p e : ℕ)
        → start + cut ≡ p * 4096
        → start + length ≡ e * 4096
        → (length - cut) / 4096 * 4096 ≡ length - cut
    whole_pages length cut start p e a b = omega (arith, a, b)

exit_runs :
    (m : EarlyMem) (regions : List Region) (cut : ℕ)
    → m.is_initialized ≡ true
    → close_regions m.memmap ≡ (regions, cut)
    → (m.bytes_allocated + cut) % 2 ^ 64 ≡ m.bytes_allocated + cut
    → (m.bytes_allocated + cut) % 4096 ≡ 0
    → early_mem_exit m
      ≡ ok (
        m.bytes_allocated + cut,
        record m {
          memmap = regions;
          bytes_allocated = m.bytes_allocated + cut;
          total_pages_usable =
              (m.total_pages_usable + 2 ^ 64 - (m.bytes_allocated + cut) / 4096) % 2 ^ 64;
        },
      )
unfolding early_mem_exit
exit_runs m regions cut a b w z = rw (a, b, w, z)

-- The outcome of the end of the early memory.
pub record Ended (m : EarlyMem) (r : Outcome (ℕ × EarlyMem)) : Type 0 where
  pub bytes : ℕ
  pub result : EarlyMem
  pub runs : r ≡ ok (bytes, result)
  pub regions : AreRegions m.total_pages 0 result.memmap
  pub grown : m.bytes_allocated ≤ bytes
  pub conserves :
      bytes + usable_pages result.memmap * 4096 ≡ m.bytes_allocated + usable_bytes m.memmap
  pub whole : bytes % 4096 ≡ 0

-- `early_mem_exit` never panics on a map that the early allocations have left: it cuts the usable
-- entries down to whole pages, in ascending order, none overlapping and all below the highest page,
-- which is what `buddy_init` needs. The bytes it returns are those allocated with those cut off,
-- a number of whole pages, and with the usable pages make what there was.
pub early_mem_exit-Ended : (m : EarlyMem) → IsValid m → Ended m (early_mem_exit m)
early_mem_exit-Ended m v =
    let k = close_regions-Closed m.total_pages 0 m.memmap v.carved in
    let r = close_regions m.memmap in
    let small : (m.bytes_allocated + r.1) % 2 ^ 64 ≡ m.bytes_allocated + r.1 =
      omega (arith, v.bounded, k.conserves) in
    let pages : (m.bytes_allocated + r.1) % 4096 ≡ 0 =
      omega (arith, v.pages, k.conserves, k.whole) in
    record {
      bytes = m.bytes_allocated + r.1;
      result = record m {
        memmap = r.0;
        bytes_allocated = m.bytes_allocated + r.1;
        total_pages_usable =
            (m.total_pages_usable + 2 ^ 64 - (m.bytes_allocated + r.1) / 4096) % 2 ^ 64;
      };
      runs = exit_runs m r.0 r.1 v.set_up refl small pages;
      regions = k.regions;
      grown = omega arith;
      conserves = omega (arith, k.conserves, k.whole);
      whole = pages;
    }
