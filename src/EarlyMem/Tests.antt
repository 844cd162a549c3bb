-- ===== src/EarlyMem/Tests.antt =====
-- A map of one usable entry, pages 1 to 15, after 100 bytes have been allocated.
use munk_os.Prelude.{ℕ, ◌≡◌, refl, arith, true, [], ◌∷◌, ok, some, Outcome, ◌>>=◌, ◌>>=◌}
use munk_os.FrameAlloc.Startup.{Region}
use munk_os.EarlyMem.{EarlyMem, early_mem_alloc, early_mem_exit, early_mem_init, usable_bytes}
use munk_os.EarlyMem.Carving.{no_more, usable, IsValid, Allocated, early_mem_alloc-Allocated}
use munk_os.EarlyMem.Closing.{Ended, early_mem_exit-Ended}

abbrev entry : Region
entry = record { start = 4196; length = 61340; usable = true }

abbrev early : EarlyMem
early = record {
  mappings = λ i. (4096, 100);
  allocations = 1;
  memmap = entry ∷ [];
  hhdm_offset = 1000000;
  total_pages = 16;
  total_pages_usable = 15;
  bytes_allocated = 100;
  is_initialized = true;
}

early-IsValid : IsValid early
unfolding usable_bytes
early-IsValid = record {
  set_up = refl;
  carved = usable 16 refl (omega arith) refl (omega arith) (omega arith) no_more;
  pages = refl;
  bounded = omega arith;
}

early_mem_alloc_runs : (early_mem_alloc early 200 >>= λ (a, m). ok a) ≡ ok 1004196
unfolding early_mem_alloc
early_mem_alloc_runs = refl

booted : Outcome (ℕ × EarlyMem)
booted =
    early_mem_init 48 (some (record { start = 4096; length = 61440; usable = true } ∷ [], 1000000))
      (record early { bytes_allocated = 0; allocations = 0 })

early_mem_init_runs : (booted >>= λ (total, m). ok m.bytes_allocated) ≡ ok 792
unfolding booted early_mem_init
early_mem_init_runs = refl

early_mem_alloc-Allocated_example : Allocated early 200 (early_mem_alloc early 200)
early_mem_alloc-Allocated_example = early_mem_alloc-Allocated early 200 early-IsValid (omega arith)

early_mem_exit-Ended_example : Ended early (early_mem_exit early)
early_mem_exit-Ended_example = early_mem_exit-Ended early early-IsValid
